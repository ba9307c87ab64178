-- ===== src/HtmlCore/Segment.antt =====
-- `Segment`: one piece of renderer output, and the vectors of them that frames hold.
pub mod Tokens
pub mod Merged
use yrby.Base.{ℕ, List, [], ◌∷◌, ◌++◌, Str}

-- `segments` stands for `Vec<Segment>`.
mutual
  pub data Segment : Type 0 where
    html : Str → Segment
    deferred : Str → Str → List Str → Segments → Segment

  pub data Segments : Type 0 where
    nil : Segments
    cons : Segment → Segments → Segments

-- `Vec::push` of a segment.
unfoldable pub push_seg : Segment → Segments → Segments
push_seg x nil = cons x nil
push_seg x (cons y ys) = cons y (push_seg x ys)

-- Append markup: to the last segment where that is `html`, as a new segment otherwise.
unfoldable pub push_html : Str → Segments → Segments
push_html s nil = cons (html s) nil
push_html s (cons (html t) nil) = cons (html (t ++ s)) nil
push_html s (cons (html t) (cons y ys)) = cons (html t) (push_html s (cons y ys))
push_html s (cons (deferred ty attrs kinds content) ys) =
    cons (deferred ty attrs kinds content) (push_html s ys)
