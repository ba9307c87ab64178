-- ===== src/HtmlCore/Work/Rounds.antt =====
-- Rounds of the loop over the stack, and what they emit.
use yrby.Base.{
  ℕ, zero, suc, ◌+◌, ◌≤◌, ◌≡◌, refl, sym, ap, ◌∙◌, Bool, true, false, some, List, [], ◌∷◌, ◌++◌,
  Str, arith,
}
use yrby.HtmlCore.Segment.{Segments, nil}
use yrby.HtmlCore.Segment.Tokens.{Tok, hole, chars, emit, emit-append}
use yrby.HtmlCore.Emitter.{emitter, ◌>>=◌, end_frame}
use yrby.HtmlCore.Emitter.Emits.{Emits, Emits-push_str, Emits-emit_deferred}
use yrby.HtmlCore.Work.{Work, open_node, end_deferred, Opener, run_work}
use yrby.HtmlCore.Work.Plan.{closer}

module _ {E : Type 0} (open_block : Opener E) where
  -- After some rounds, at most `cost`, the work in front of `stack` is done and has emitted `ts`.
  pub record Walks (work : List (Work E) → List (Work E)) (cost : ℕ) (ts : List Tok) : Type 0 where
    pub rounds : ℕ
    pub bounded : rounds ≤ cost
    pub at :
        (n fuel : ℕ)
        → n ≡ rounds + fuel
        → (stack : List (Work E)) (top : Segments) (rest : List Segments)
        → run_work open_block n (work stack) (emitter (top ∷ rest))
          ≡ run_work open_block fuel stack (emitter (emit top ts ∷ rest))

  pub Walks-none : Walks (λ stack. stack) 0 []
  unfolding emit
  Walks-none = record {
    rounds = 0;
    bounded = omega arith;
    at = λ n fuel e stack top rest. rw (same n fuel e) refl;
  }
    where
      same : (n fuel : ℕ) → n ≡ 0 + fuel → n ≡ fuel
      same n fuel e = omega arith

  pub Walks-both :
      (work work' : List (Work E) → List (Work E)) (cost cost' : ℕ) (ts us : List Tok)
      → Walks work cost ts
      → Walks work' cost' us
      → Walks (λ stack. work (work' stack)) (cost + cost') (ts ++ us)
  Walks-both work work' cost cost' ts us p q = record {
    rounds = p.rounds + q.rounds;
    bounded = omega (arith, p.bounded, q.bounded);
    at = λ n fuel e stack top rest.
        p.at n (q.rounds + fuel) (omega arith) (work' stack) top rest
        ∙ q.at (q.rounds + fuel) fuel refl stack (emit top ts) rest
        ∙ ap (λ x. run_work open_block fuel stack (emitter (x ∷ rest)))
            (sym (emit-append top ts us));
  }

  pub widened :
      {work : List (Work E) → List (Work E)} {ts : List Tok} {a b : ℕ}
      → a ≤ b
      → Walks work a ts
      → Walks work b ts
  widened h p = record { rounds = p.rounds; bounded = omega (arith, h, p.bounded); at = p.at }

  -- A round that pops a closing text.
  close_round :
      (owned : Bool) (t : Str) (n : ℕ) (stack : List (Work E)) (top : Segments)
      (rest : List Segments)
      → run_work open_block (suc n) (closer owned t ∷ stack) (emitter (top ∷ rest))
        ≡ run_work open_block n stack (emitter (emit top (chars t) ∷ rest))
  unfolding run_work ◌>>=◌
  close_round true t n stack top rest = rw (Emits-push_str t).at
  close_round false t n stack top rest = rw (Emits-push_str t).at

  -- A round that seals a callback node.
  seal_round :
      (ty attrs : Str) (kinds : List Str) (n : ℕ) (stack : List (Work E)) (content top : Segments)
      (rest : List Segments)
      → run_work open_block
          (suc n)
          (end_deferred ty attrs kinds ∷ stack)
          (emitter (content ∷ (top ∷ rest)))
        ≡ run_work open_block n stack (emitter (emit top (hole ty attrs kinds content ∷ []) ∷ rest))
  unfolding run_work ◌>>=◌ end_frame
  seal_round ty attrs kinds n stack content top rest =
      rw (Emits-emit_deferred ty attrs kinds content).at

  -- A round that opens a block whose opening emits in its own frame.
  open_round :
      (e : E) (left n : ℕ) (stack stack' : List (Work E)) (ts : List Tok) (top : Segments)
      (rest : List Segments)
      → Emits (open_block e left stack) stack' ts
      → run_work open_block (suc n) (open_node e left ∷ stack) (emitter (top ∷ rest))
        ≡ run_work open_block n stack' (emitter (emit top ts ∷ rest))
  unfolding run_work ◌>>=◌
  open_round e left n stack stack' ts top rest h = rw h.at

  abbrev pub Step : Type 0
  Step = List (Work E) → List (Work E)

  abbrev pub Walked : Step → List Tok → ℕ → Type 0
  Walked work ts rounds =
      (n fuel : ℕ)
      → n ≡ rounds + fuel
      → (stack : List (Work E)) (top : Segments) (rest : List Segments)
      → run_work open_block n (work stack) (emitter (top ∷ rest))
        ≡ run_work open_block fuel stack (emitter (emit top ts ∷ rest))

  pub leaf-Walked :
      (e : E) (left : ℕ) (ts : List Tok)
      → ((stack : List (Work E)) → Emits (open_block e left stack) stack ts)
      → Walked (λ stack. open_node e left ∷ stack) ts 1
  leaf-Walked e left ts h zero fuel eq stack top rest = absurd (omega arith)
  leaf-Walked e left ts h (suc n) fuel eq stack top rest =
      open_round e left n stack stack ts top rest (h stack)
      ∙ ap (λ m. run_work open_block m stack (emitter (emit top ts ∷ rest))) (omega arith)

  closer-Walked : (owned : Bool) (t : Str) → Walked (λ stack. closer owned t ∷ stack) (chars t) 1
  closer-Walked owned t zero fuel eq stack top rest = absurd (omega arith)
  closer-Walked owned t (suc n) fuel eq stack top rest =
      close_round owned t n stack top rest
      ∙ ap (λ m. run_work open_block m stack (emitter (emit top (chars t) ∷ rest))) (omega arith)

  pub open-Walks :
      (e : E) (left : ℕ) (stack' : Step) (head ts : List Tok) (cost : ℕ)
      → ((stack : List (Work E)) → Emits (open_block e left stack) (stack' stack) head)
      → Walks stack' cost ts
      → Walks (λ stack. open_node e left ∷ stack) (1 + cost) (head ++ ts)
  open-Walks e left stack' head ts cost h p = record {
    rounds = 1 + p.rounds;
    bounded = omega (arith, p.bounded);
    at = go;
  }
    where
      go : Walked (λ stack. open_node e left ∷ stack) (head ++ ts) (1 + p.rounds)
      go zero fuel eq stack top rest = absurd (omega arith)
      go (suc n) fuel eq stack top rest =
          open_round e left n stack (stack' stack) head top rest (h stack)
          ∙ p.at n fuel (omega arith) stack (emit top head) rest
          ∙ ap (λ x. run_work open_block fuel stack (emitter (x ∷ rest)))
              (sym (emit-append top head ts))

  pub Walks-closer : (owned : Bool) (t : Str) → Walks (λ stack. closer owned t ∷ stack) 1 (chars t)
  Walks-closer owned t = record { rounds = 1; bounded = omega arith; at = closer-Walked owned t }

  module _ (e : E) (left : ℕ) (ty attrs : Str) (kinds : List Str) where
    -- A callback node: its frame is begun, what its children emit lands in it, and it is sealed.
    pub frame-Walks :
        (work : Step) (head ts : List Tok) (cost : ℕ)
        → ((stack : List (Work E)) (top : Segments) (rest : List Segments)
            → open_block e left stack (emitter (top ∷ rest))
              ≡ some (
                work (end_deferred ty attrs kinds ∷ stack),
                emitter (emit nil head ∷ (top ∷ rest)),
              ))
        → Walks work cost ts
        → Walks
            (λ stack. open_node e left ∷ stack)
            (2 + cost)
            (hole ty attrs kinds (emit nil (head ++ ts)) ∷ [])
    unfolding run_work ◌>>=◌
    frame-Walks work head ts cost h p = record {
      rounds = 2 + p.rounds;
      bounded = omega (arith, p.bounded);
      at = go;
    }
      where
        go :
            Walked
              (λ stack. open_node e left ∷ stack)
              (hole ty attrs kinds (emit nil (head ++ ts)) ∷ [])
              (2 + p.rounds)
        go zero fuel eq stack top rest = absurd (omega arith)
        go (suc n) fuel eq stack top rest = rw h (
            p.at n (suc fuel) (omega arith) (end_deferred ty attrs kinds ∷ stack) (emit nil head)
              (top ∷ rest)
            ∙ seal_round ty attrs kinds fuel stack (emit (emit nil head) ts) top rest
            ∙ ap
                (λ c.
                  run_work open_block fuel stack
                    (emitter (emit top (hole ty attrs kinds c ∷ []) ∷ rest)))
                (sym (emit-append nil head ts)))
