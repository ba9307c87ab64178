-- ===== src/Protocol/Updates.antt =====
-- What is served of a document, and which updates are ready for it.
use yrby.Base.{
  ◌≡◌, ◌∙◌, refl, ap, Bool, true, false, not, ◌&&◌, ◌||◌, if◌then◌else◌, List, ℕ, Bool-cases, inl,
  inr,
}
use yrby.Base.Result.{Result, ok, ◌>>=◌}
use yrby.Protocol.{
  Docs, has_pending, decode_and_apply, integrated_update, ready_probe, update_is_ready,
}
use yrby.Protocol.Laws.{Meaning, IsYrs}

module _ (y : Docs) (m : Meaning y) (laws : IsYrs y m) where
  -- The bytes are the encoding of a document with the same content and nothing parked.
  abbrev pub IsIntegrated : y.Doc → y.StateVector → Result (List ℕ) → Type 0
  IsIntegrated doc sv r =
      (d : y.Doc) × (r ≡ ok (y.encode d sv)) × (m.state d ≡ m.state doc) × (has_pending y d ≡ false)

  -- Where yrs rebuilds and prunes documents as documented, `integrated_update` returns the encoding
  -- of a document that has all the content of the one it is given, and nothing pending.
  pub integrated_update-IsIntegrated :
      (doc : y.Doc) (sv : y.StateVector) → IsIntegrated doc sv (integrated_update y doc sv)
  unfolding integrated_update has_pending
  integrated_update-IsIntegrated doc sv =
      at_pending (y.pending_update doc) (y.pending_ds doc) refl refl
    where
      rebuilt : IsIntegrated doc sv (
          decode_and_apply y y.new_doc (y.encode doc y.empty_vector) >>= λ clean.
          ok (y.encode (y.prune_pending clean) sv))
      rebuilt =
          let (u, r, eu, er, es, ep) = laws.rebuild doc in
          (y.prune_pending r, rw (eu, er) refl, laws.prune-state r ∙ es, laws.prune-pending r)

      at_pending :
          (p q : Bool)
          → y.pending_update doc ≡ p
          → y.pending_ds doc ≡ q
          → IsIntegrated doc sv (
              if not p && not q
              then ok (y.encode doc sv)
              else (decode_and_apply y y.new_doc (y.encode doc y.empty_vector) >>= λ clean.
                  ok (y.encode (y.prune_pending clean) sv)))
      at_pending false false hp hq = (doc, refl, refl, λ i. hp i || hq i)
      at_pending true q hp hq = rebuilt
      at_pending false true hp hq = rebuilt

  -- The probe holds the integrated content and nothing else in front of the update.
  ready_probe-fits :
      (doc : y.Doc) (u : y.Update)
      → (probe : y.Doc) × (ready_probe y doc u ≡ ok probe)
        × (has_pending y probe ≡ not (m.fits (m.state doc) u))
  unfolding ready_probe
  ready_probe-fits doc u =
      let (d, ed, sd, pd) = integrated_update-IsIntegrated doc y.empty_vector in
      let (v, r, ev, er, sr, pr) = laws.rebuild d in
      let (probe, ea, pa) = laws.apply-fits r u (pr ∙ pd) in
      (probe, rw (ed, ev, er) ea, pa ∙ ap (λ s. not (m.fits s u)) (sr ∙ sd))

  -- Where yrs rebuilds, prunes and updates documents as documented, `update_is_ready` says of an
  -- update that decodes just whether it fits the integrated content of the document, whatever is
  -- pending there.
  pub update_is_ready-fits :
      (doc : y.Doc) (bytes : List ℕ) (u : y.Update)
      → y.decode_v1 bytes ≡ ok u
      → update_is_ready y doc bytes ≡ ok (m.fits (m.state doc) u)
  unfolding update_is_ready
  update_is_ready-fits doc bytes u eu =
      elim (Bool-cases (y.covers (y.doc_vector doc) (y.lower_vector u))) [
        | inl c ↦
            let (probe, ep, pp) = ready_probe-fits doc u in
            rw (eu, c, ep, pp) (ap ok (twice (m.fits (m.state doc) u)))
        | inr c ↦ rw (eu, c, laws.lower-fits doc u c) refl
      ]
    where
      twice : (b : Bool) → not (not b) ≡ b
      twice true = refl
      twice false = refl
