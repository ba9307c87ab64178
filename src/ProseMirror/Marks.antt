-- ===== src/ProseMirror/Marks.antt =====
-- The marks of a text run as pairs of an opening and a closing tag.
pub mod Paired
pub mod LinkSafe
use yrby.Base.{
  ℕ, if◌then◌else◌, Bool, true, false, not, ◌&&◌, ◌||◌, Option, none, some, List, [], ◌∷◌, ◌++◌,
  reverse, map, Str, codes, str_eq, is_one_of, any_of, keep, get, contains_key,
}
use yrby.Yrs.{Yrs, Any, Entries, Stored}
use yrby.HtmlCore.Escape.{escape_attr}
use yrby.HtmlCore.Url.{url_scheme}
use yrby.HtmlCore.Template.{AttrPart, MarkRule, Rules, resolve_parts, any_attr_string}
use yrby.HtmlCore.Markup.{open_tag, close_tag}
use yrby.HtmlCore.Markup.Build.{attr_text}
use yrby.Base.Sort.{sort_by_key}
use yrby.ProseMirror.Css.{entries, text_style_css}

-- An opening tag and its closing tag.
abbrev pub Mark : Type 0
Mark = Str × Str

-- The formatting attributes of a run.
abbrev pub Attrs : Type 0 → Type 0
Attrs F = List (Str × Any F)

abbrev pub link_schemes : List Str
link_schemes =
    codes "http"
    ∷ codes "https"
    ∷ codes "ftp"
    ∷ codes "ftps"
    ∷ codes "mailto"
    ∷ codes "tel"
    ∷ codes "callto"
    ∷ codes "sms"
    ∷ codes "cid"
    ∷ codes "xmpp"
    ∷ []

abbrev is_unsafe : Option Str → Bool
is_unsafe none = false
is_unsafe (some scheme) = not (is_one_of link_schemes scheme)

-- The value that a link's attribute `key` is rendered with.
unfoldable pub link_value : Str → Str → Str
link_value key v = if str_eq key (codes "href") && is_unsafe (url_scheme v) then [] else v

abbrev link_attr_value : {F : Type 0} → Str → Option (Any F) → Str
link_attr_value key (some (Any.string v)) = attr_text key (link_value key v)
link_attr_value key _ = []

-- The loop over `keys`, from what `out` holds.
link_attrs : {F : Type 0} → List (Str × Any F) → List Str → Str
link_attrs link [] = []
link_attrs link (key ∷ keys) = link_attr_value key (get link key) ++ link_attrs link keys

abbrev pub link_keys : List Str
link_keys = codes "target" ∷ codes "rel" ∷ codes "class" ∷ codes "href" ∷ codes "title" ∷ []

unfoldable pub link_open : {F : Type 0} → Entries F → Str
unfolding link_attrs entries
link_open link = codes "<a" ++ (link_attrs (entries link) link_keys ++ codes ">")

-- `let tag = |t: &str| (format!("<{t}>"), format!("</{t}>"))`
abbrev pub tag_mark : Str → Mark
tag_mark t = (open_tag t [], close_tag t)

unfoldable pub has : {F : Type 0} → Attrs F → List Str → Rules → Bool
has marks keys rules = any_of (λ k. contains_key marks k && not (contains_key rules.marks k)) keys

abbrev when : {A : Type 0} → Bool → A → List A
when b a = if b then a ∷ [] else []

abbrev css_mark : Str → List Mark
css_mark [] = []
css_mark (c ∷ css) =
    (codes "<span style=\"" ++ (escape_attr (c ∷ css) ++ codes "\">"), codes "</span>") ∷ []

abbrev text_style : {F : Type 0} → Option (Any F) → List Mark
text_style (some (Any.map style)) = css_mark (text_style_css style)
text_style _ = []

abbrev link_mark : {F : Type 0} → Option (Any F) → List Mark
link_mark (some (Any.map link)) = (link_open link, codes "</a>") ∷ []
link_mark _ = []

module _ (y : Yrs) (rules : Rules) where
  abbrev mark_value : Option (Stored y) → Option Str
  mark_value none = none
  mark_value (some a) = any_attr_string y a

  unfoldable pub mark_ref_attr : Option (Stored y) → Str → Option Str
  unfolding entries
  mark_ref_attr (some (Any.map m)) name = mark_value (get (entries m) name)
  mark_ref_attr _ name = none

  abbrev resolved_attr : Str → Option Str → Str
  resolved_attr name none = []
  resolved_attr name (some v) = attr_text name v

  custom_attrs : Option (Stored y) → List (Str × List AttrPart) → Str
  unfolding mark_ref_attr
  custom_attrs value [] = []
  custom_attrs value ((attr, parts) ∷ attrs) =
      resolved_attr attr (resolve_parts parts (mark_ref_attr value)) ++ custom_attrs value attrs

  unfoldable pub custom_mark_open : MarkRule → Option (Stored y) → Str
  unfolding custom_attrs
  custom_mark_open rule value =
      codes "<" ++ (rule.tag ++ (custom_attrs value rule.attrs ++ codes ">"))

  -- The innermost marks, innermost first.
  formats : Attrs y.Float → List Mark
  unfolding has
  formats marks =
      if has marks (codes "code" ∷ []) rules
      then tag_mark (codes "code") ∷ []
      else if contains_key marks (codes "code")
      then []
      else ((if has marks (codes "subscript" ∷ codes "sub" ∷ []) rules
            then tag_mark (codes "sub") ∷ []
            else when (has marks (codes "superscript" ∷ codes "sup" ∷ []) rules)
                (tag_mark (codes "sup")))
          ++ (when (has marks (codes "highlight" ∷ []) rules) (tag_mark (codes "mark"))
              ++ (when (has marks (codes "underline" ∷ codes "u" ∷ []) rules) (tag_mark (codes "u"))
                  ++ (when (has marks (codes "strike" ∷ codes "s" ∷ []) rules)
                        (tag_mark (codes "s"))
                      ++ (when (has marks (codes "italic" ∷ codes "em" ∷ []) rules)
                            (tag_mark (codes "em"))
                          ++ (when (has marks (codes "bold" ∷ codes "strong" ∷ []) rules)
                                (tag_mark (codes "strong"))
                              ++ (if contains_key rules.marks (codes "textStyle")
                                  then []
                                  else text_style (get marks (codes "textStyle")))))))))

  unfoldable pub link : Attrs y.Float → List Mark
  link marks =
      if contains_key rules.marks (codes "link") then [] else link_mark (get marks (codes "link"))

  -- `&rules.marks[name]`, where `name` is one of the map's keys.
  abbrev custom_mark : Attrs y.Float → Str → Option MarkRule → List Mark
  custom_mark marks name none = []
  custom_mark marks name (some rule) =
      (custom_mark_open rule (get marks name), close_tag rule.tag) ∷ []

  custom_marks : Attrs y.Float → List (Str × MarkRule) → List Mark
  custom_marks marks [] = []
  custom_marks marks ((name, _) ∷ names) =
      custom_mark marks name (get rules.marks name) ++ custom_marks marks names

  abbrev claims : Attrs y.Float → (Str × MarkRule) → Bool
  claims marks (name, _) =
      contains_key marks name
      && (not (contains_key marks (codes "code"))
          || (str_eq name (codes "code") || str_eq name (codes "link")))

  unfoldable pub run_stack : Option (Attrs y.Float) → List Mark
  unfolding formats link custom_marks custom_mark_open
  run_stack none = []
  run_stack (some marks) = reverse (
      formats marks
      ++ (link marks ++ custom_marks marks (sort_by_key (keep (claims marks) rules.marks))))
