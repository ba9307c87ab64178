-- ===== src/HtmlCore/Markup/Named.antt =====
-- Rules whose tags and attribute names are names, and that mark as void only what HTML has without
-- content.
use yrby.Base.{
  ◌≡◌, Option, none, some, Bool, true, false, if◌then◌else◌, List, [], ◌∷◌, Str, All, get, str_eq,
  concat_map,
}
use yrby.HtmlCore.Template.{
  AttrPart, NodeRule, declarative, callback, MarkRule, Rules, empty_rules, resolve_parts,
}
use yrby.HtmlCore.Markup.{IsName, IsVoid, Attributes, no_attributes}
use yrby.HtmlCore.Markup.Build.{attr_text, attr_text-Attributes, Attributes-append}

abbrev pub HasNamedAttrs : List (Str × List AttrPart) → Type 0
HasNamedAttrs attrs = All (λ a. IsName a.0) attrs

abbrev pub IsNamedNode : NodeRule → Type 0
IsNamedNode (declarative tag void attrs _ _) =
    IsName tag × HasNamedAttrs attrs × (void ≡ true → IsVoid tag)
IsNamedNode (callback _) = Unit

abbrev pub IsNamedMark : MarkRule → Type 0
IsNamedMark rule = IsName rule.tag × HasNamedAttrs rule.attrs

pub record IsNamed (rules : Rules) : Type 0 where
  pub nodes : All (λ r. IsNamedNode r.1) rules.nodes
  pub marks : All (λ r. IsNamedMark r.1) rules.marks

pub empty_rules-IsNamed : IsNamed empty_rules
empty_rules-IsNamed = record { nodes = tt; marks = tt }

abbrev pub Found {ℓ} : {V : Type 0} → (V → Type ℓ) → Option V → Type ℓ
Found P none = Unit
Found P (some v) = P v

Found-if :
    {V : Type 0} (P : V → Type 0) (b : Bool) (o : Option V) {v : V}
    → P v
    → Found P o
    → Found P (if b then some v else o)
Found-if P true o h k = h
Found-if P false o h k = k

-- What holds of every entry holds of one that is found.
pub get-Found :
    {V : Type 0} (P : V → Type 0) (m : List (Str × V)) (k : Str)
    → All (λ e. P e.1) m
    → Found P (get m k)
unfolding get
get-Found P [] k h = tt
get-Found P ((j, v) ∷ m) k (h, hs) = Found-if P (str_eq j k) (get m k) h (get-Found P m k hs)

-- What a template attribute adds to a tag.
abbrev pub resolved_text : Str → Option Str → Str
resolved_text name none = []
resolved_text name (some v) = attr_text name v

pub resolved_text-Attributes :
    (name : Str) (o : Option Str) → IsName name → Attributes (resolved_text name o)
resolved_text-Attributes name none h = no_attributes
resolved_text-Attributes name (some v) h = attr_text-Attributes name v h

abbrev pub rule_attrs : (Str → Option Str) → List (Str × List AttrPart) → Str
rule_attrs lookup = concat_map (λ a. resolved_text a.0 (resolve_parts a.1 lookup))

pub rule_attrs-Attributes :
    (lookup : Str → Option Str) (attrs : List (Str × List AttrPart))
    → HasNamedAttrs attrs
    → Attributes (rule_attrs lookup attrs)
rule_attrs-Attributes lookup [] h = no_attributes
rule_attrs-Attributes lookup ((name, parts) ∷ attrs) (h, hs) =
    Attributes-append (resolved_text-Attributes name (resolve_parts parts lookup) h)
      (rule_attrs-Attributes lookup attrs hs)
