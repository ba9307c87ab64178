-- ===== src/HtmlCore/Template/Resolved.antt =====
-- What a template resolves to.
use yrby.Base.{
  ◌≡◌, ◌≢◌, refl, sym, ap, ◌∙◌, Option, some, List, [], ◌∷◌, ◌++◌, append_assoc, append-nil, Str,
  concat_map, arith, ◌↔◌,
}
use yrby.HtmlCore.Template.{AttrPart, lit, ref, non_empty, or_empty, fill, fill_all, resolve_parts}

-- What one part stands for.
abbrev pub part_value : (Str → Option Str) → AttrPart → Str
part_value lookup (lit s) = s
part_value lookup (ref name) = or_empty (lookup name)

fill-part_value :
    (lookup : Str → Option Str) (out : Str) (part : AttrPart)
    → fill lookup out part ≡ out ++ part_value lookup part
fill-part_value lookup out (lit s) = refl
fill-part_value lookup out (ref name) = refl

fill_all-append :
    (lookup : Str → Option Str) (out : Str) (parts : List AttrPart)
    → fill_all lookup out parts ≡ out ++ concat_map (part_value lookup) parts
unfolding fill_all
fill_all-append lookup out [] = sym (append-nil out)
fill_all-append lookup out (part ∷ parts) =
    fill_all-append lookup (fill lookup out part) parts
    ∙ rw fill-part_value
        (append_assoc out (part_value lookup part) (concat_map (part_value lookup) parts))

pub resolve_parts-value :
    (parts : List AttrPart) (lookup : Str → Option Str)
    → resolve_parts parts lookup ≡ non_empty (concat_map (part_value lookup) parts)
unfolding resolve_parts
resolve_parts-value parts lookup = ap non_empty (fill_all-append lookup [] parts)

-- A resolved template is never empty, and is what its parts stand for, in order.
pub resolve_parts-some :
    (parts : List AttrPart) (lookup : Str → Option Str) (v : Str)
    → (resolve_parts parts lookup ≡ some v)
      ↔ ((v ≢ []) × (concat_map (part_value lookup) parts ≡ v))
resolve_parts-some parts lookup v =
    rw resolve_parts-value (at_value (concat_map (part_value lookup) parts))
  where
    at_value : (w : Str) → (non_empty w ≡ some v) ↔ ((v ≢ []) × (w ≡ v))
    at_value [] = ground arith
    at_value (c ∷ s) = ground arith
