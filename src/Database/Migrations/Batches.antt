-- ===== src/Database/Migrations/Batches.antt =====
-- How a script of crates/infra/src/db/migrate.rs falls into batches.
use Prim.Native.String
use mathlib.Core.List.{append-nil}
use kokkeak_api.Text.Lines.{lines}
use kokkeak_api.Database.Migrations.{is_go, split_lines, split_go_batches, flush}
use kokkeak_api.Prelude.{
  String, [], ◌∷◌, refl, true, List, Bool, ◌≡◌, ◌++◌, arith, not, ◌&&◌, ap, sym, ◌∙◌,
}
use kokkeak_api.Text.{trim}

abbrev pub no_go : List String → Bool
no_go [] = true
no_go (l ∷ ls) = not (is_go l) && no_go ls

abbrev pub none_go : List (List String) → Bool
none_go [] = true
none_go (b ∷ bs) = no_go b && none_go bs

-- The lines of some blocks with a line between each two.
abbrev pub separated : String → List (List String) → List String
separated g [] = []
separated g (b ∷ []) = b
separated g (b ∷ c ∷ bs) = b ++ g ∷ separated g (c ∷ bs)

-- The text of a block, each line ended.
abbrev pub text_from : String → List String → String
text_from s [] = s
text_from s (l ∷ ls) = text_from (String.◌++◌ s (String.◌++◌ l "\n")) ls

-- The texts of the blocks that are not blank.
abbrev pub texts : List (List String) → List String
texts [] = []
texts (b ∷ bs) = flush (text_from "" b) (texts bs)

split_lines-block :
    (s : String) (b ls : List String)
    → no_go b ≡ true
    → split_lines s (b ++ ls) ≡ split_lines (text_from s b) ls
unfolding split_lines
split_lines-block s [] ls h = refl
split_lines-block s (l ∷ b) ls h =
    ground (arith, split_lines-block (String.◌++◌ s (String.◌++◌ l "\n")) b ls (ground arith))

split_lines-texts :
    (g : String) (bs : List (List String))
    → is_go g ≡ true
    → none_go bs ≡ true
    → split_lines "" (separated g bs) ≡ texts bs
unfolding split_lines trim
split_lines-texts g [] h k = refl
split_lines-texts g (b ∷ []) h k =
    ap (split_lines "") (sym (append-nil b)) ∙ split_lines-block "" b [] (ground arith)
split_lines-texts g (b ∷ c ∷ bs) h k = ground (
  arith,
  split_lines-block "" b (g ∷ separated g (c ∷ bs)) (ground arith),
  split_lines-texts g (c ∷ bs) h (ground arith),
)

-- A script whose lines are blocks with a GO line between each two falls into the texts of the blocks,
-- in their order, less those that are blank; a line that only contains the letters belongs to its block.
pub split_go_batches-separated :
    (sql g : String) (bs : List (List String))
    → is_go g ≡ true
    → none_go bs ≡ true
    → lines sql ≡ separated g bs
    → split_go_batches sql ≡ texts bs
unfolding split_go_batches
split_go_batches-separated sql g bs h k l = rw l (split_lines-texts g bs h k)
