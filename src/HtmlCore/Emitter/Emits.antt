-- ===== src/HtmlCore/Emitter/Emits.antt =====
-- What code does to an emitter, said by the tokens that it emits: one rule for each way to build
-- such code.
use yrby.Base.{
  ℕ, ◌≡◌, refl, ap, sym, subst, ◌∙◌, some, List, [], ◌∷◌, ◌++◌, append-nil, Bool, true, false,
  if◌then◌else◌, Str, concat_map,
}
use yrby.HtmlCore.Segment.{Segment, html, deferred, Segments, nil, cons}
use yrby.HtmlCore.Segment.Tokens.{
  Tok, hole, chars, emit, seg_tokens, tokens, emit-append, emit-chars, tokens-emit,
}
use yrby.HtmlCore.Emitter.{
  emitter, Render, pure, ◌>>=◌, ◌>>◌, push_str, push, begin_frame, end_frame, emit_deferred,
  append_one, append, for_each,
}

-- On an emitter with a frame, `m` returns `a`, appends `ts` to that frame and leaves the others.
pub record Emits {A : Type 0} (m : Render A) (a : A) (ts : List Tok) : Type 0 where
  pub at :
      (top : Segments) (rest : List Segments)
      → m (emitter (top ∷ rest)) ≡ some (a, emitter (emit top ts ∷ rest))

abbrev pub Writes : Render (Unit {0}) → List Tok → Type 0
Writes m ts = Emits m tt ts

pub Emits-pure : {A : Type 0} (a : A) → Emits (pure a) a []
unfolding emit
Emits-pure a = record { at = λ top rest. refl }

pub Emits-push_str : (s : Str) → Writes (push_str s) (chars s)
unfolding push_str emit
Emits-push_str [] = record { at = λ top rest. refl }
Emits-push_str (c ∷ s) = record {
  at = λ top rest. ap (λ x. some (tt, emitter (x ∷ rest))) (sym (emit-chars c s top));
}

pub Emits-push : (c : ℕ) → Writes (push c) (chars (c ∷ []))
unfolding push
Emits-push c = Emits-push_str (c ∷ [])

pub Emits-emit_deferred :
    (ty attrs : Str) (kinds : List Str) (content : Segments)
    → Writes (emit_deferred ty attrs kinds content) (hole ty attrs kinds content ∷ [])
unfolding emit_deferred emit
Emits-emit_deferred ty attrs kinds content = record { at = λ top rest. refl }

module _ {B : Type 0} where
  pub Emits-bind :
      {A : Type 0} (m : Render A) (f : A → Render B) (a : A) (b : B) (ts us : List Tok)
      → Emits m a ts
      → Emits (f a) b us
      → Emits (m >>= f) b (ts ++ us)
  unfolding ◌>>=◌
  Emits-bind m f a b ts us hm hf = record {
    at = λ top rest. rw hm.at (
        hf.at (emit top ts) rest
        ∙ ap (λ x. some (b, emitter (x ∷ rest))) (sym (emit-append top ts us)));
  }

  -- A frame that is begun and ended hands its content on, and leaves the frames as they were.
  pub Emits-frame :
      (m : Render (Unit {0})) (f : Segments → Render B) (b : B) (ts us : List Tok)
      → Writes m ts
      → Emits (f (emit nil ts)) b us
      → Emits (begin_frame >> (m >> (end_frame >>= f))) b us
  unfolding ◌>>=◌ begin_frame end_frame
  Emits-frame m f b ts us hm hf = record { at = λ top rest. rw hm.at (hf.at top rest) }

-- One action after another.
pub seq :
    {B : Type 0} {m : Render (Unit {0})} {k : Render B} {b : B} {ts us : List Tok}
    → Writes m ts
    → Emits k b us
    → Emits (m >>= λ _. k) b (ts ++ us)
seq {m = m} {k = k} {b = b} {ts = ts} {us = us} hm hk = Emits-bind m (λ _. k) tt b ts us hm hk

-- An action, and then the value.
pub ending :
    {B : Type 0} {m : Render (Unit {0})} {ts : List Tok} (b : B)
    → Writes m ts
    → Emits (m >>= λ _. pure b) b ts
ending {m = m} {ts = ts} b hm =
    subst (Emits (m >>= λ _. pure b) b) (append-nil ts) (seq hm (Emits-pure b))

pub Emits-append_one : (x : Segment) → Writes (append_one x) (seg_tokens x)
unfolding append_one seg_tokens emit
Emits-append_one (html s) = Emits-push_str s
Emits-append_one (deferred ty attrs kinds content) = record { at = λ top rest. refl }

pub Emits-append : (x : Segments) → Writes (append x) (tokens x)
unfolding append tokens
Emits-append nil = Emits-pure tt
Emits-append (cons x xs) =
    Emits-bind (append_one x) (λ _. append xs) tt tt (seg_tokens x) (tokens xs) (Emits-append_one x)
      (Emits-append xs)

-- A captured frame appended again shows what was captured.
pub Emits-captured : (ts : List Tok) → Writes (append (emit nil ts)) ts
unfolding tokens
Emits-captured ts =
    subst (Writes (append (emit nil ts))) (tokens-emit nil ts) (Emits-append (emit nil ts))

pub Emits-for_each :
    {A : Type 0} (f : A → Render (Unit {0})) (g : A → List Tok) (xs : List A)
    → ((x : A) → Writes (f x) (g x))
    → Writes (for_each f xs) (concat_map g xs)
unfolding for_each
Emits-for_each f g [] h = Emits-pure tt
Emits-for_each f g (x ∷ xs) h =
    Emits-bind (f x) (λ _. for_each f xs) tt tt (g x) (concat_map g xs) (h x)
      (Emits-for_each f g xs h)

pub Emits-if :
    {A : Type 0} (b : Bool) (m n : Render A) (a : A) (ts us : List Tok)
    → Emits m a ts
    → Emits n a us
    → Emits (if b then m else n) a (if b then ts else us)
Emits-if true m n a ts us hm hn = hm
Emits-if false m n a ts us hm hn = hn

pub ruleset emits_rules =
    (Emits-pure, Emits-push_str, Emits-push, Emits-emit_deferred, Emits-bind, Emits-if)
