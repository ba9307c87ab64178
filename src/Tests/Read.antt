-- ===== src/Tests/Read.antt =====
-- The theorems on the readers at concrete inputs, and runs of the model.
use yrby.Base.{ℕ, ◌≡◌, [], codes, arith}
use yrby.Read.Json.{y_map, y_text, closed, field, map_json, out_to_any}
use yrby.Read.Json.Stable.{swapped, map_json-Same}
use yrby.Read.Lines.{walk_lexical_block}
use yrby.Read.Lines.Kept.{Adds, IsRank, block_shown, walk_lexical_block-Adds}
use yrby.Samples.Notes.{NoteText, greeting, website, mention, tasks, task, nested, deep_task, notes}

abbrev note_rank : NoteText → ℕ
note_rank greeting = 1
note_rank website = 0
note_rank mention = 0
note_rank tasks = 3
note_rank task = 2
note_rank nested = 1
note_rank deep_task = 0

note_rank-IsRank : IsRank notes note_rank
note_rank-IsRank greeting = (omega arith, (omega arith, tt))
note_rank-IsRank website = tt
note_rank-IsRank mention = tt
note_rank-IsRank tasks = (omega arith, tt)
note_rank-IsRank task = (omega arith, tt)
note_rank-IsRank nested = (omega arith, tt)
note_rank-IsRank deep_task = tt

walk_lexical_block-Adds_example :
    Adds (walk_lexical_block notes 5 tasks []) [] (block_shown notes 5 tasks)
walk_lexical_block-Adds_example =
    walk_lexical_block-Adds notes note_rank 5 tasks [] note_rank-IsRank (omega arith)

map_json-Same_example :
    map_json notes
      (field (codes "a") (y_text (codes "x")) (field (codes "b") (y_map closed) closed))
    ≡ map_json notes
        (field (codes "b") (y_map closed) (field (codes "a") (y_text (codes "x")) closed))
unfolding out_to_any
map_json-Same_example =
    map_json-Same notes
      (field (codes "a") (y_text (codes "x")) (field (codes "b") (y_map closed) closed))
      (field (codes "b") (y_map closed) (field (codes "a") (y_text (codes "x")) closed))
      (swapped (codes "a") (codes "b") _ _ _ (λ e. ground (arith, e)))
