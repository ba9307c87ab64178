-- ===== src/Yrs.antt =====
-- The `yrs` crate as the source uses it: the values that a document stores, which the source
-- matches on, and the reads of a document in one transaction, which are parameters.
use yrby.Base.{ℕ, Bool, Option, List, Str}
use yrby.Base.Int.{ℤ}

-- `yrs::Number`; `F` stands for `f64`.
pub data Number (F : Type 0) : Type 0 where
  int : ℤ → Number F
  float : F → Number F

-- `yrs::Any`; `items` and `entries` stand for its `Arc<[Any]>` and `Arc<HashMap<String, Any>>`.
mutual
  pub data Any (F : Type 0) : Type 0 where
    null : Any F
    undefined : Any F
    bool : Bool → Any F
    number : Number F → Any F
    string : Str → Any F
    buffer : List ℕ → Any F
    array : Items F → Any F
    map : Entries F → Any F

  pub data Items (F : Type 0) : Type 0 where
    end : Items F
    item : Any F → Items F → Items F

  pub data Entries (F : Type 0) : Type 0 where
    empty : Entries F
    entry : Str → Any F → Entries F → Entries F

-- `yrs::Out`: a stored value or a shared type; `other` is every variant that the source never names.
pub data Out (F E T M : Type 0) : Type 0 where
  any : Any F → Out F E T M
  y_map : M → Out F E T M
  y_xml_element : E → Out F E T M
  y_xml_text : T → Out F E T M
  other : Out F E T M

-- `yrs::XmlOut`.
pub data XmlOut (E T G : Type 0) : Type 0 where
  element : E → XmlOut E T G
  fragment : G → XmlOut E T G
  text : T → XmlOut E T G

-- What a read transaction shows of a document, and the formatting of floats.
pub record Yrs : Type 1 where
  pub Float : Type 0
  -- `n.fract() == 0.0`, `n as i64`, `n as u32`, `n > 0.0` and `format!("{n}")`
  pub is_whole : Float → Bool
  pub to_i64 : Float → ℤ
  pub to_u32 : Float → ℕ
  pub is_positive : Float → Bool
  pub format_float : Float → Str
  -- `Any::to_json`, and `serde_json::to_string` of a string
  pub to_json : Any Float → Str
  pub json_string : Str → Option Str
  pub Element : Type 0
  pub Text : Type 0
  pub Fragment : Type 0
  pub YMap : Type 0
  pub tag : Element → Str
  pub children : Element → List (XmlOut Element Text Fragment)
  -- `GetString` of an element
  pub element_string : Element → Str
  pub attribute : Element → Str → Option (Out Float Element Text YMap)
  pub attributes : Element → List (Str × Out Float Element Text YMap)
  -- `Text::diff`: each run's content and its formatting attributes
  pub diff : Text → List (Out Float Element Text YMap × Option (List (Str × Any Float)))
  pub text_attribute : Text → Str → Option (Out Float Element Text YMap)
  pub text_attributes : Text → List (Str × Out Float Element Text YMap)
  pub text_string : Text → Str
  pub map_get : YMap → Str → Option (Out Float Element Text YMap)
  pub roots : Fragment → List (XmlOut Element Text Fragment)
  pub fragment_string : Fragment → Str

module _ (y : Yrs) where
  abbrev pub Stored : Type 0
  Stored = Any y.Float

  abbrev pub Output : Type 0
  Output = Out y.Float y.Element y.Text y.YMap

  abbrev pub Node : Type 0
  Node = XmlOut y.Element y.Text y.Fragment
