-- ===== src/Storage/Files/Whole.antt =====
-- A blob of crates/infra/src/storage/local.rs is stored whole or not at all.
use mathlib.Core.Path.{subst}
use kokkeak_api.Effect.{Method, Outcome, good, bad, pure, ◌>>◌, Outcome-cases, bind_good, bind_bad}
use kokkeak_api.Storage.{Component, resolve}
use kokkeak_api.Storage.Files.{
  FileSystem, StorageError, PutResult, io, make_parent, store_at, put_at, put, tmp_path, parent_of,
  storage_backend, result_of, mismatched, hash_mismatch, expected_of,
}
use kokkeak_api.Prelude.{
  ℕ, String, [], ◌++◌, some, List, Option, ◌≡◌, ◌≢◌, refl, none, inl, inr, arith, ap, ◌∙◌, sym,
  Bool-cases,
}

-- What is assumed of the file system: `look` is what a path holds. A file that is created is empty, what
-- is written to it is added, a file that is moved is found at its new place with what it held; a move
-- that fails changes nothing, and each call leaves the other paths alone.
pub record Files {F : Type 0} (fs : FileSystem F) (look : List Component → F → Option (List ℕ))
    : Type 0 where
  pub directories : (d p : List Component) (f : F) → look p (fs.create_dir_all d f).1 ≡ look p f
  pub created :
      (p : List Component) (f : F)
      → (fs.create p f).0 ≡ good tt
      → look p (fs.create p f).1 ≡ some []
  pub written :
      (p : List Component) (old bs : List ℕ) (f : F)
      → look p f ≡ some old
      → (fs.write_all p bs f).0 ≡ good tt
      → look p (fs.write_all p bs f).1 ≡ some (old ++ bs)
  pub synced : (p q : List Component) (f : F) → look q (fs.sync_all p f).1 ≡ look q f
  pub renamed :
      (p q : List Component) (bs : List ℕ) (f : F)
      → look p f ≡ some bs
      → (fs.rename p q f).0 ≡ good tt
      → look q (fs.rename p q f).1 ≡ some bs
  pub not_renamed :
      (p q : List Component) (e : String) (f : F)
      → (fs.rename p q f).0 ≡ bad e
      → look q (fs.rename p q f).1 ≡ look q f
  pub create_apart : (p q : List Component) (f : F) → p ≢ q → look q (fs.create p f).1 ≡ look q f
  pub write_apart :
      (p q : List Component) (bs : List ℕ) (f : F)
      → p ≢ q
      → look q (fs.write_all p bs f).1 ≡ look q f

-- A step that leaves a path as it was.
abbrev Leaves :
    {F A : Type 0}
    → (List Component → F → Option (List ℕ))
    → List Component
    → Method StorageError F A
    → Type 0
Leaves look p m = (f : _) → look p (m f).1 ≡ look p f

seq-Leaves :
    {F A B : Type 0} (look : List Component → F → Option (List ℕ)) (p : List Component)
    (m : Method StorageError F A) (n : Method StorageError F B)
    → Leaves look p m
    → Leaves look p n
    → Leaves look p (m >> n)
seq-Leaves look p m n keeps keeps' f = elim (Outcome-cases (m f).0) [
  | inl (a, k) ↦ ap (λ o. look p o.1) (bind_good m (λ _. n) f a k) ∙ keeps' (m f).1 ∙ keeps f
  | inr (e, k) ↦ ap (λ o. look p o.1) (bind_bad m (λ _. n) f e k) ∙ keeps f
]

module _ {F : Type 0} (fs : FileSystem F) (root : List Component) (sha256_hex : List ℕ → String)
    (text : String → List Component → String → String) (look : List Component → F → Option (List ℕ))
    (files : Files fs look) where
  abbrev step :
      String
      → List Component
      → (F → Outcome String (Unit {0}) × F)
      → Method StorageError F (Unit {0})
  step = io fs root sha256_hex text

  abbrev making : List Component → Method StorageError F (Unit {0})
  making abs = make_parent fs root sha256_hex text abs

  abbrev creating : List Component → Method StorageError F (Unit {0})
  creating abs = step "create" (tmp_path abs) (fs.create (tmp_path abs))

  abbrev writing : List Component → List ℕ → Method StorageError F (Unit {0})
  writing abs bytes = step "write" (tmp_path abs) (fs.write_all (tmp_path abs) bytes)

  abbrev syncing : List Component → Method StorageError F (Unit {0})
  syncing abs = step "sync" (tmp_path abs) (fs.sync_all (tmp_path abs))

  -- All but the move.
  abbrev create_aside : List Component → Method StorageError F (Unit {0})
  create_aside abs = making abs >> creating abs

  abbrev write_aside : List Component → List ℕ → Method StorageError F (Unit {0})
  write_aside abs bytes = create_aside abs >> writing abs bytes

  abbrev set_aside : List Component → List ℕ → Method StorageError F (Unit {0})
  set_aside abs bytes = write_aside abs bytes >> syncing abs

  io-Leaves :
      (what : String) (p q : List Component) (g : F → Outcome String (Unit {0}) × F)
      → ((f : F) → look p (g f).1 ≡ look p f)
      → Leaves look p (step what q g)
  io-Leaves what p q g keeps f = ground (arith, keeps f)

  make_parent-Leaves :
      (p abs : List Component) → Leaves look p (make_parent fs root sha256_hex text abs)
  make_parent-Leaves p abs f = by_parent (parent_of abs) refl
    where
      by_parent :
          (o : Option (List Component))
          → parent_of abs ≡ o
          → look p (make_parent fs root sha256_hex text abs f).1 ≡ look p f
      by_parent none k = ground arith
      by_parent (some d) k = ground (arith, files.directories d p f)

  set_aside-Leaves :
      (abs : List Component) (bytes : List ℕ)
      → tmp_path abs ≢ abs
      → Leaves look abs (set_aside abs bytes)
  set_aside-Leaves abs bytes apart =
      seq-Leaves look abs (write_aside abs bytes) (syncing abs)
        (seq-Leaves look abs (create_aside abs) (writing abs bytes)
          (seq-Leaves look abs (making abs) (creating abs) (make_parent-Leaves abs abs) (
            io-Leaves "create" abs (tmp_path abs) (fs.create (tmp_path abs))
              (λ f. files.create_apart (tmp_path abs) abs f apart)))
          (io-Leaves "write" abs (tmp_path abs) (fs.write_all (tmp_path abs) bytes)
            (λ f. files.write_apart (tmp_path abs) abs bytes f apart)))
        (io-Leaves "sync" abs (tmp_path abs) (fs.sync_all (tmp_path abs))
          (λ f. files.synced (tmp_path abs) abs f))

  -- A call that went well, and the state after it.
  io_good :
      (what : String) (p : List Component) (g : F → Outcome String (Unit {0}) × F) (f : F)
      (u : Unit {0})
      → (step what p g f).0 ≡ good u
      → ((g f).0 ≡ good tt) × ((step what p g f).1 ≡ (g f).1)
  io_good what p g f u h = elim (Outcome-cases (g f).0) [
    | inl (v, k) ↦ (k, ground arith)
    | inr (e, k) ↦ ground arith
  ]

  seq_good :
      (m n : Method StorageError F (Unit {0})) (f : F) (u : Unit {0})
      → ((m >> n) f).0 ≡ good u
      → ((m f).0 ≡ good tt) × ((n (m f).1).0 ≡ good u) × ((m >> n) f ≡ n (m f).1)
  seq_good m n f u h = elim (Outcome-cases (m f).0) [
    | inl (v, k) ↦
        let went : (m >> n) f ≡ n (m f).1 = bind_good m (λ _. n) f v k in
        (k, ap (λ o. o.0) (sym went) ∙ h, went)
    | inr (e, k) ↦ ground arith
  ]

  set_aside-bytes :
      (abs : List Component) (bytes : List ℕ) (f : F) (u : Unit {0})
      → (set_aside abs bytes f).0 ≡ good u
      → look (tmp_path abs) (set_aside abs bytes f).1 ≡ some bytes
  set_aside-bytes abs bytes f u h =
      let tmp = tmp_path abs in
      let (wrote, synced, at_sync) = seq_good (write_aside abs bytes) (syncing abs) f u h in
      let (made, written, at_write) = seq_good (create_aside abs) (writing abs bytes) f tt wrote in
      let (_, created, at_create) = seq_good (making abs) (creating abs) f tt made in
      let f1 = (making abs f).1 in
      let f2 = (create_aside abs f).1 in
      let f3 = (write_aside abs bytes f).1 in
      let (is_new, to2) = io_good "create" tmp (fs.create tmp) f1 tt created in
      let (is_full, to3) = io_good "write" tmp (fs.write_all tmp bytes) f2 tt written in
      let (_, to4) = io_good "sync" tmp (fs.sync_all tmp) f3 u synced in
      let empty : look tmp f2 ≡ some [] =
        ap (λ o. look tmp o.1) at_create ∙ ap (look tmp) to2 ∙ files.created tmp f1 is_new in
      let full : look tmp f3 ≡ some bytes =
        ap (λ o. look tmp o.1) at_write
        ∙ ap (look tmp) to3
        ∙ files.written tmp [] bytes f2 empty is_full in
      ap (λ o. look tmp o.1) at_sync ∙ ap (look tmp) to4 ∙ files.synced tmp tmp f3 ∙ full

  -- What a store leaves at its path: the bytes, or what was there.
  abbrev pub Whole :
      List Component → List ℕ → F → {A : Type 0} → Outcome StorageError A × F → Type 0
  Whole abs bytes f (good u, f') = look abs f' ≡ some bytes
  Whole abs bytes f (bad e, f') = look abs f' ≡ look abs f

  abbrev moving : List Component → Method StorageError F (Unit {0})
  moving abs = step "rename" abs (fs.rename (tmp_path abs) abs)

  moving-Whole :
      (abs : List Component) (bytes : List ℕ) (f g : F)
      → look (tmp_path abs) g ≡ some bytes
      → look abs g ≡ look abs f
      → Whole abs bytes f (moving abs g)
  moving-Whole abs bytes f g holds same =
      let moved = fs.rename (tmp_path abs) abs g in
      let here : Outcome StorageError (Unit {0}) × F → Type 0 = λ o. Whole abs bytes f o in
      elim (Outcome-cases moved.0) [
        | inl (u, k) ↦
            let went : moving abs g ≡ (good u, moved.1) = ground arith in
            subst here (sym went) (files.renamed (tmp_path abs) abs bytes g holds k)
        | inr (e, k) ↦
            let went : moving abs g ≡ (bad (storage_backend (text "rename" abs e)), moved.1) =
              ground arith in
            subst here (sym went) (files.not_renamed (tmp_path abs) abs e g k ∙ same)
      ]

  store_at-Whole :
      (abs : List Component) (bytes : List ℕ) (f : F)
      → tmp_path abs ≢ abs
      → Whole abs bytes f (store_at fs root sha256_hex text abs bytes f)
  unfolding store_at
  store_at-Whole abs bytes f apart =
      let aside = set_aside abs bytes in
      let g = (aside f).1 in
      let here : Outcome StorageError (Unit {0}) × F → Type 0 = λ o. Whole abs bytes f o in
      elim (Outcome-cases (aside f).0) [
        | inl (u, k) ↦ subst here (sym (bind_good aside (λ _. moving abs) f u k)) (
            moving-Whole abs bytes f g (set_aside-bytes abs bytes f u k)
              (set_aside-Leaves abs bytes apart f))
        | inr (e, k) ↦
            subst here (sym (bind_bad aside (λ _. moving abs) f e k))
              (set_aside-Leaves abs bytes apart f)
      ]

  Whole-good :
      (abs : List Component) (bytes : List ℕ) (f : F) (out : Outcome StorageError (Unit {0}) × F)
      (u : Unit {0})
      → out.0 ≡ good u
      → Whole abs bytes f out
      → look abs out.1 ≡ some bytes
  Whole-good abs bytes f (good v, f') u k h = h
  Whole-good abs bytes f (bad e, f') u k h = ground arith

  Whole-bad :
      (abs : List Component) (bytes : List ℕ) (f : F) (out : Outcome StorageError (Unit {0}) × F)
      (e : StorageError)
      → out.0 ≡ bad e
      → Whole abs bytes f out
      → look abs out.1 ≡ look abs f
  Whole-bad abs bytes f (good v, f') e k h = ground arith
  Whole-bad abs bytes f (bad e', f') e k h = h

  -- The result that is given at the end changes nothing.
  answered-Whole :
      (abs : List Component) (bytes : List ℕ) (f : F) (store : Method StorageError F (Unit {0}))
      (result : PutResult)
      → Whole abs bytes f (store f)
      → Whole abs bytes f ((store >> pure result) f)
  answered-Whole abs bytes f store result h =
      let here : Outcome StorageError PutResult × F → Type 0 = λ o. Whole abs bytes f o in
      elim (Outcome-cases (store f).0) [
        | inl (u, k) ↦
            subst here (sym (bind_good store (λ _. pure result) f u k))
              (Whole-good abs bytes f (store f) u k h)
        | inr (e, k) ↦
            subst here (sym (bind_bad store (λ _. pure result) f e k))
              (Whole-bad abs bytes f (store f) e k h)
      ]

  -- A blob is stored whole or not at all. On a file system with the laws of `Files`, where the file that
  -- is written first has another path than the blob's, storing bytes under a key that leads to a path leaves there all the bytes if it succeeds,
  -- and what was there before if it fails at any step, or if the hash is not the one expected.
  pub put-Whole :
      (key : String) (bytes : List ℕ) (expected : Option String) (f : F) (abs : List Component)
      → resolve root key ≡ good abs
      → tmp_path abs ≢ abs
      → Whole abs bytes f (put fs root sha256_hex text key bytes expected f)
  unfolding put put_at
  put-Whole key bytes expected f abs resolved apart =
      let here : Outcome StorageError PutResult × F → Type 0 = λ o. Whole abs bytes f o in
      let store = store_at fs root sha256_hex text abs bytes in
      let result = result_of fs root sha256_hex text key bytes in
      let hash = sha256_hex bytes in
      elim (Bool-cases (mismatched expected hash)) [
        | inl k ↦
            let refused : put fs root sha256_hex text key bytes expected f
                ≡ (bad (hash_mismatch (expected_of expected) hash), f) =
              ground arith in
            subst here (sym refused) refl
        | inr k ↦
            let went : put fs root sha256_hex text key bytes expected f ≡ (store >> pure result) f =
              ground arith in
            subst here (sym went)
              (answered-Whole abs bytes f store result (store_at-Whole abs bytes f apart))
      ]
