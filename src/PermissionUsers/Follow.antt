-- ===== src/PermissionUsers/Follow.antt =====
-- What a client gets that follows the cursors of `apply_cursor_pagination` in
-- crates/application/src/permission.rs.
use mathlib.Core.List.{append-nil, append_assoc}
use kokkeak_api.PermissionUsers.Pages.{page_first, page_after, take_all, IsAscending}
use kokkeak_api.Prelude.{
  zero, suc, refl, none, some, false, inl, inr, [], if◌then◌else◌, ◌∷◌, ℕ, List, Option, String,
  ◌≤◌, ◌≡◌, length, ◌++◌, arith, take, ◌∙◌, ltb, ap, sym, Bool-cases,
}
use kokkeak_api.PermissionUsers.{last_email, PermissionUserListRow, apply_cursor_pagination}

-- A client that follows the cursors: it asks for at most `fuel` pages.
pub follow : ℕ → ℕ → Option String → List PermissionUserListRow → List PermissionUserListRow
follow zero limit after rows = []
follow (suc fuel) limit after rows =
    let page = apply_cursor_pagination rows after limit in
    page.items ++ elim page.next_cursor [ none ↦ [] | some c ↦ follow fuel limit (some c) rows ]

-- A page that is not empty, by its last row.
last_row :
    (limit : ℕ) (x : PermissionUserListRow) (post : List PermissionUserListRow)
    → (front : List PermissionUserListRow) × (r : PermissionUserListRow) × (rest : List
        PermissionUserListRow)
      × (x ∷ post ≡ front ++ r ∷ rest)
      × (take (suc limit) (x ∷ post) ≡ front ++ r ∷ [])
      × (last_email (take (suc limit) (x ∷ post)) ≡ some r.email)
      × (length rest ≤ length post)
unfolding last_email
last_row zero x post = ([], x, post, refl, refl, refl, omega arith)
last_row (suc limit) x [] = ([], x, [], refl, refl, refl, omega arith)
last_row (suc limit) x (y ∷ post) =
    let (front, r, rest, split, page, shown, shorter) = last_row limit y post in
    (x ∷ front, r, rest, ap (λ l. x ∷ l) split, ap (λ l. x ∷ l) page, shown, omega arith)

-- A page, and the pages after it, give the rows from the page's start on.
follow_page :
    (fuel limit : ℕ) (after : Option String) (rows before post : List PermissionUserListRow)
    → rows ≡ before ++ post
    → apply_cursor_pagination rows after (suc limit) ≡ record {
      items = take (suc limit) post;
      next_cursor =
          if ltb (suc limit) (length post) then last_email (take (suc limit) post) else none;
    }
    → length post ≤ suc fuel
    → ((pre : List PermissionUserListRow) (r : PermissionUserListRow)
          (rest : List PermissionUserListRow)
        → rows ≡ pre ++ r ∷ rest
        → length rest ≤ fuel
        → follow fuel (suc limit) (some r.email) rows ≡ rest)
    → follow (suc fuel) (suc limit) after rows ≡ post
unfolding follow
follow_page fuel limit after rows before [] split page enough next =
    let all : ltb (suc limit) 0 ≡ false = ground arith in rw (page, all)
follow_page fuel limit after rows before (x ∷ post) split page enough next =
    elim (Bool-cases (ltb (suc limit) (length (x ∷ post)))) [
      | inl more ↦
          let (front, r, rest, post_split, shown, cursor, shorter) = last_row limit x post in
          let again =
            next (before ++ front) r rest
              (split
                ∙ ap (λ l. before ++ l) post_split
                ∙ sym (append_assoc before front (r ∷ rest)))
              (omega arith) in
          rw (page, more, cursor, again)
            (ap (λ l. l ++ rest) shown ∙ append_assoc front (r ∷ []) rest ∙ sym post_split)
      | inr all ↦
          rw (page, all)
            (append-nil (x ∷ take limit post) ∙ take_all (suc limit) (x ∷ post) (ground arith))
    ]

follow_from :
    (fuel limit : ℕ) (pre : List PermissionUserListRow) (r : PermissionUserListRow)
    (post rows : List PermissionUserListRow)
    → rows ≡ pre ++ r ∷ post
    → IsAscending rows
    → length post ≤ fuel
    → follow fuel (suc limit) (some r.email) rows ≡ post
unfolding follow
follow_from zero limit pre r [] rows split ascending enough = refl
follow_from zero limit pre r (x ∷ post) rows split ascending enough = ground arith
follow_from (suc fuel) limit pre r post rows split ascending enough =
    follow_page fuel limit (some r.email) rows (pre ++ r ∷ []) post
      (split ∙ sym (append_assoc pre (r ∷ []) post))
      (rw split (page_after pre r post (suc limit) (rw split at ascending))) enough
      (λ pre' r' rest split' few. follow_from fuel limit pre' r' rest rows split' ascending few)

-- Following the cursors from the start gives every row exactly once and in order, when the rows
-- ascend strictly by email, a page has room for at least one row, and as many pages may be asked for
-- as there are rows.
pub follow_all :
    (fuel limit : ℕ) (rows : List PermissionUserListRow)
    → IsAscending rows
    → 1 ≤ limit
    → length rows ≤ fuel
    → 1 ≤ fuel
    → follow fuel limit none rows ≡ rows
follow_all zero limit rows ascending room enough some_fuel = ground arith
follow_all (suc fuel) zero rows ascending room enough some_fuel = ground arith
follow_all (suc fuel) (suc limit) rows ascending room enough some_fuel =
    follow_page fuel limit none rows [] rows refl (page_first rows (suc limit)) enough
      (λ pre r rest split few. follow_from fuel limit pre r rest rows split ascending few)
