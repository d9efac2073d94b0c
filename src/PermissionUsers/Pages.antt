-- ===== src/PermissionUsers/Pages.antt =====
-- The pages of `apply_cursor_pagination` in crates/application/src/permission.rs.
use kokkeak_api.PermissionUsers.{
  PermissionUserListRow, after_text, position, start_of, apply_cursor_pagination, last_email,
  stop_of,
}
use kokkeak_api.Prelude.{
  ℕ, suc, ◌≡◌, refl, true, false, arith, take, drop, length, ltb, ◌++◌, none, some, [],
  if◌then◌else◌, ◌∷◌, List, min, ◌+◌, zero, inl, inr, ◌≤◌, Bool-cases, ◌-◌, leb, ap, ◌∙◌, sym,
}

-- Every later row's email is after the row's, and not the other way round.
abbrev pub IsBelow : PermissionUserListRow → List PermissionUserListRow → Type 0
IsBelow r [] = Unit {0}
IsBelow r (s ∷ rs) =
    (after_text s.email r.email ≡ true) × (after_text r.email s.email ≡ false) × IsBelow r rs

-- The rows ascend strictly by their emails.
abbrev pub IsAscending : List PermissionUserListRow → Type 0
IsAscending [] = Unit {0}
IsAscending (r ∷ rs) = (after_text r.email r.email ≡ false) × IsBelow r rs × IsAscending rs

below_at :
    (p : PermissionUserListRow) (pre : List PermissionUserListRow) (r : PermissionUserListRow)
    (post : List PermissionUserListRow)
    → IsBelow p (pre ++ r ∷ post)
    → after_text p.email r.email ≡ false
below_at p [] r post h = h.1
below_at p (q ∷ pre) r post h = below_at p pre r post h.2

position-next :
    (r : PermissionUserListRow) (post : List PermissionUserListRow)
    → IsBelow r post
    → position r.email post ≡ 0
unfolding position
position-next r [] h = refl
position-next r (s ∷ post) h = rw (h.0)

position-append :
    (pre : List PermissionUserListRow) (r : PermissionUserListRow)
    (post : List PermissionUserListRow)
    → IsAscending (pre ++ r ∷ post)
    → position r.email (pre ++ r ∷ post) ≡ suc (length pre)
unfolding position
position-append [] r post h = rw (h.0, position-next r post h.1)
position-append (p ∷ pre) r post h = rw (below_at p pre r post h.1, position-append pre r post h.2)

drop-append :
    (pre : List PermissionUserListRow) (r : PermissionUserListRow)
    (post : List PermissionUserListRow)
    → drop (suc (length pre)) (pre ++ r ∷ post) ≡ post
drop-append [] r post = refl
drop-append (p ∷ pre) r post = drop-append pre r post

length-append_cons :
    (pre : List PermissionUserListRow) (r : PermissionUserListRow)
    (post : List PermissionUserListRow)
    → length (pre ++ r ∷ post) ≡ suc (length pre) + length post
length-append_cons [] r post = omega arith
length-append_cons (p ∷ pre) r post = omega (arith, length-append_cons pre r post)

pub take_all : (n : ℕ) (xs : List PermissionUserListRow) → length xs ≤ n → take n xs ≡ xs
take_all zero [] h = refl
take_all zero (x ∷ xs) h = ground arith
take_all (suc n) [] h = refl
take_all (suc n) (x ∷ xs) h = ap (λ ys. x ∷ ys) (take_all n xs (omega arith))

take-min : (n : ℕ) (xs : List PermissionUserListRow) → take (min n (length xs)) xs ≡ take n xs
take-min n xs = elim (Bool-cases (leb n (length xs))) [
  | inl within ↦ ap (λ k. take k xs) (ground arith)
  | inr beyond ↦
      ap (λ k. take k xs) (ground arith)
      ∙ take_all (length xs) xs (omega arith)
      ∙ sym (take_all n xs (ground arith))
]

-- Of rows that ascend strictly by email, the page after the cursor of a row is the next `limit` rows
-- exactly, and it names a cursor, its last row's, exactly if rows are left after it.
pub page_after :
    (pre : List PermissionUserListRow) (r : PermissionUserListRow)
    (post : List PermissionUserListRow) (limit : ℕ)
    → IsAscending (pre ++ r ∷ post)
    → apply_cursor_pagination (pre ++ r ∷ post) (some r.email) limit ≡ record {
      items = take limit post;
      next_cursor = if ltb limit (length post) then last_email (take limit post) else none;
    }
unfolding apply_cursor_pagination start_of
page_after pre r post limit h =
    let rows = pre ++ r ∷ post in
    let n = suc (length pre) in
    let measured = length-append_cons pre r post in
    let width : stop_of n limit rows - n ≡ min limit (length post) = omega (arith, measured) in
    let more : ltb (stop_of n limit rows) (length rows) ≡ ltb limit (length post) =
      ground (arith, measured) in
    rw (position-append pre r post h, width, more, drop-append pre r post, take-min limit post)

pub page_first :
    (rows : List PermissionUserListRow) (limit : ℕ)
    → apply_cursor_pagination rows none limit ≡ record {
      items = take limit rows;
      next_cursor = if ltb limit (length rows) then last_email (take limit rows) else none;
    }
unfolding apply_cursor_pagination start_of
page_first rows limit =
    let width : stop_of 0 limit rows - 0 ≡ min limit (length rows) = omega arith in
    let more : ltb (stop_of 0 limit rows) (length rows) ≡ ltb limit (length rows) = ground arith in
    rw (width, more, take-min limit rows)
