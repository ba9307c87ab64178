-- ===== src/HtmlCore/Emitter.antt =====
-- `Emitter`: output captured in frames, and the code that appends to it.
pub mod Emits
pub mod Frames
use yrby.Base.{ℕ, Option, none, some, List, [], ◌∷◌, Str}
use yrby.HtmlCore.Segment.{Segment, html, deferred, Segments, nil, cons, push_seg, push_html}

-- The innermost frame, which is last in the source's vector, stands first.
pub record Emitter : Type 0 where
  pub frames : List Segments

abbrev pub emitter : List Segments → Emitter
emitter fs = record { frames = fs }

-- Code that holds `&mut Emitter`; `none` is a panic.
abbrev pub Render : Type 0 → Type 0
Render A = Emitter → Option (A × Emitter)

abbrev pub pure : {A : Type 0} → A → Render A
pure a em = some (a, em)

abbrev after : {A B : Type 0} → Option (A × Emitter) → (A → Render B) → Option (B × Emitter)
after none f = none
after (some (a, em)) f = f a em

infixl 5 ◌>>=◌ ◌>>◌
unfoldable pub ◌>>=◌ : {A B : Type 0} → Render A → (A → Render B) → Render B
◌>>=◌ m f em = after (m em) f

abbrev pub ◌>>◌ : {B : Type 0} → Render (Unit {0}) → Render B → Render B
m >> k = m >>= λ _. k

-- `self.frames.last_mut().expect("emitter frame")`
on_frame : (Segments → Segments) → List Segments → Option (Unit {0} × Emitter)
on_frame f [] = none
on_frame f (top ∷ rest) = some (tt, emitter (f top ∷ rest))

abbrev pub new : Emitter
new = emitter (nil ∷ [])

unfoldable pub push_str : Str → Render (Unit {0})
unfolding on_frame
push_str [] em = some (tt, em)
push_str (c ∷ s) em = on_frame (push_html (c ∷ s)) em.frames

unfoldable pub push : ℕ → Render (Unit {0})
unfolding push_str
push c = push_str (c ∷ [])

unfoldable pub begin_frame : Render (Unit {0})
begin_frame em = some (tt, emitter (nil ∷ em.frames))

-- `self.frames.pop().unwrap_or_default()`; the debug assertions on the number of frames, which
-- release builds leave out, are not modelled.
pop_frame : List Segments → Segments × Emitter
pop_frame [] = (nil, emitter [])
pop_frame (top ∷ rest) = (top, emitter rest)

unfoldable pub end_frame : Render Segments
unfolding pop_frame
end_frame em = some (pop_frame em.frames)

unfoldable pub emit_deferred : Str → Str → List Str → Segments → Render (Unit {0})
unfolding on_frame
emit_deferred ty attrs kinds content em =
    on_frame (push_seg (deferred ty attrs kinds content)) em.frames

unfoldable pub append_one : Segment → Render (Unit {0})
unfolding push_str on_frame
append_one (html s) em = push_str s em
append_one (deferred ty attrs kinds content) em =
    on_frame (push_seg (deferred ty attrs kinds content)) em.frames

unfoldable pub append : Segments → Render (Unit {0})
append nil = pure tt
append (cons x xs) = append_one x >> append xs

unfoldable pub into_segments : Emitter → Segments
unfolding pop_frame
into_segments em = (pop_frame em.frames).0

-- `for x in xs { body(x) }`
unfoldable pub for_each : {A : Type 0} → (A → Render (Unit {0})) → List A → Render (Unit {0})
for_each f [] = pure tt
for_each f (x ∷ xs) = f x >> for_each f xs
