-- ===== src/HtmlCore/Emitter/Frames.antt =====
-- What every operation of the emitter keeps: merged frames.
use yrby.Base.{ℕ, ◌≡◌, refl, Option, some, List, [], ◌∷◌, Str, All}
use yrby.HtmlCore.Segment.{Segment, html, deferred, Segments, nil, cons, push_seg, push_html}
use yrby.HtmlCore.Segment.Merged.{IsMerged, push_html-IsMerged, push_seg-IsMerged}
use yrby.HtmlCore.Emitter.{
  Emitter, emitter, Render, pure, ◌>>=◌, on_frame, push_str, push, begin_frame, pop_frame,
  end_frame, emit_deferred, append_one, append,
}

-- The operations; `end_op` yields the frame that it ends, and the others no segments.
pub data Op : Type 0 where
  push_str_op : Str → Op
  push_op : ℕ → Op
  begin_op : Op
  end_op : Op
  append_op : Segments → Op
  defer_op : Str → Str → List Str → Segments → Op

abbrev no_segments : Render (Unit {0}) → Render Segments
no_segments r = r >>= λ _. pure nil

abbrev pub performed : Op → Render Segments
performed (push_str_op s) = no_segments (push_str s)
performed (push_op c) = no_segments (push c)
performed begin_op = no_segments begin_frame
performed end_op = end_frame
performed (append_op xs) = no_segments (append xs)
performed (defer_op ty attrs kinds content) = no_segments (emit_deferred ty attrs kinds content)

-- What a rendering yields and leaves: no panic, and merged segments.
abbrev pub LeavesMerged : Option (Segments × Emitter) → Type 0
LeavesMerged r =
    (xs : Segments) × (em : Emitter) × (r ≡ some (xs, em)) × IsMerged xs × All IsMerged em.frames

-- The segments that appending to a merged frame leaves there.
abbrev Appends : Render (Unit {0}) → Segments → List Segments → Type 0
Appends r top rest =
    (after : Segments) × (r (emitter (top ∷ rest)) ≡ some (tt, emitter (after ∷ rest)))
    × IsMerged after

push_str-Appends :
    (s : Str) (top : Segments) (rest : List Segments) → IsMerged top → Appends (push_str s) top rest
unfolding push_str on_frame
push_str-Appends [] top rest h = (top, refl, h)
push_str-Appends (c ∷ s) top rest h = (push_html (c ∷ s) top, refl, push_html-IsMerged c s top h)

append_one-Appends :
    (x : Segment) (top : Segments) (rest : List Segments)
    → IsMerged top
    → Appends (append_one x) top rest
unfolding append_one on_frame
append_one-Appends (html s) top rest h = push_str-Appends s top rest h
append_one-Appends (deferred ty attrs kinds content) top rest h = (
  push_seg (deferred ty attrs kinds content) top,
  refl,
  push_seg-IsMerged ty attrs kinds content top h,
)

append-Appends :
    (xs top : Segments) (rest : List Segments) → IsMerged top → Appends (append xs) top rest
unfolding append ◌>>=◌
append-Appends nil top rest h = (top, refl, h)
append-Appends (cons x xs) top rest h =
    let (mid, em, hm) = append_one-Appends x top rest h in
    let (last, el, hl) = append-Appends xs mid rest hm in (last, rw em el, hl)

no_segments-LeavesMerged :
    (r : Render (Unit {0})) (top : Segments) (rest : List Segments)
    → All IsMerged rest
    → Appends r top rest
    → LeavesMerged (no_segments r (emitter (top ∷ rest)))
unfolding ◌>>=◌
no_segments-LeavesMerged r top rest hs (after, e, h) =
    (nil, emitter (after ∷ rest), rw e refl, tt, (h, hs))

-- With a frame begun, no operation of the emitter panics, whatever it is given, and it leaves and
-- yields merged segments if the frames were merged: no empty markup, and no two markups side by
-- side.
pub performed-LeavesMerged :
    (op : Op) (top : Segments) (rest : List Segments)
    → IsMerged top
    → All IsMerged rest
    → LeavesMerged (performed op (emitter (top ∷ rest)))
unfolding begin_frame end_frame pop_frame push emit_deferred append_one on_frame ◌>>=◌
performed-LeavesMerged (push_str_op s) top rest h hs =
    no_segments-LeavesMerged (push_str s) top rest hs (push_str-Appends s top rest h)
performed-LeavesMerged (push_op c) top rest h hs =
    no_segments-LeavesMerged (push c) top rest hs (push_str-Appends (c ∷ []) top rest h)
performed-LeavesMerged begin_op top rest h hs =
    (nil, emitter (nil ∷ (top ∷ rest)), refl, tt, (tt, (h, hs)))
performed-LeavesMerged end_op top rest h hs = (top, emitter rest, refl, h, hs)
performed-LeavesMerged (append_op xs) top rest h hs =
    no_segments-LeavesMerged (append xs) top rest hs (append-Appends xs top rest h)
performed-LeavesMerged (defer_op ty attrs kinds content) top rest h hs =
    no_segments-LeavesMerged (emit_deferred ty attrs kinds content) top rest hs
      (append_one-Appends (deferred ty attrs kinds content) top rest h)
