-- ===== src/Json.antt =====
-- JSON values as Python holds them after `json.loads`, and the calls of the standard library's
-- `json`, `hashlib` and `datetime` that the source makes on them.
pub mod Sample
use agent_runtime_lab.Prelude.{
  ℕ, ◌*◌, ◌^◌, String, ◌≡◌, Bool, true, false, Option, none, some, ◌==◌, ◌&&◌, holds, string_dec,
  if◌then◌else◌,
}
use mathlib.Core.Option
use agent_runtime_lab.Prelude.Int.{ℤ, pos}

-- A finite `float` is `float m k`, the number m / 2 ^ k. A `dict` lists its fields in order; its
-- keys are distinct in Python, and `get` reads the first.
mutual
  pub data Json : Type 0 where
    null : Json
    bool : Bool → Json
    int : ℤ → Json
    float : ℤ → ℕ → Json
    str : String → Json
    list : Items → Json
    dict : Fields → Json

  pub data Items : Type 0 where
    no_items : Items
    item : Json → Items → Items

  pub data Fields : Type 0 where
    no_fields : Fields
    field : String → Json → Fields → Fields

-- `d.get(key)`
unfoldable pub get : String → Fields → Option Json
get key no_fields = none
get key (field k v rest) =
    let found = get key rest in if holds (string_dec k key) then some v else found

-- `d.get(key) == n` for an `int` n: Python's `==` holds across `bool`, `int` and `float`.
unfoldable pub equals_int : Option Json → ℕ → Bool
equals_int (some (int (pos k))) n = k == n
equals_int (some (float (pos m) k)) n = m == n * 2 ^ k
equals_int (some (bool true)) n = n == 1
equals_int (some (bool false)) n = n == 0
equals_int _ n = false

-- A `datetime`: microseconds of UTC, and the offset in minutes of an aware one.
pub record DateTime : Type 0 where
  pub instant : ℕ
  pub utcoffset : Option ℤ

-- What the source calls and does not implement: `json.dumps` with sorted keys and compact
-- separators, `json.loads` (`none` is JSONDecodeError), `hashlib.sha256(text.encode()).hexdigest()`,
-- `datetime.isoformat` and `datetime.fromisoformat` (`none` is ValueError).
pub record Host : Type 0 where
  pub dumps : Json → String
  pub loads : String → Option Json
  pub sha256 : String → String
  pub isoformat : DateTime → String
  pub fromisoformat : String → Option DateTime

-- `json` writes the canonical text of an object so that it reads back as an object with the same
-- canonical text (its keys are then sorted).
pub record IsCanonical (h : Host) : Type 0 where
  pub reread : Fields → Fields
  pub loads-dumps : (d : Fields) → h.loads (h.dumps (dict d)) ≡ some (dict (reread d))
  pub dumps-reread : (d : Fields) → h.dumps (dict (reread d)) ≡ h.dumps (dict d)

abbrev pub map_items : (Json → Json) → Items → Items
map_items f no_items = no_items
map_items f (item v rest) = item (f v) (map_items f rest)

-- Every key of the object passes the test.
unfoldable pub all_keys : (String → Bool) → Fields → Bool
all_keys p no_fields = true
all_keys p (field k v rest) = p k && all_keys p rest

-- Moreover the object that is read back has the same keys, with each value as it reads back: null,
-- integers and texts as they are, and lists element by element.
pub record ReadsBack (h : Host) (c : IsCanonical h) : Type 0 where
  pub value : Json → Json
  pub get-reread : (k : String) (d : Fields) → get k (c.reread d) ≡ Option.map value (get k d)
  pub keys-reread : (p : String → Bool) (d : Fields) → all_keys p (c.reread d) ≡ all_keys p d
  pub value-null : value null ≡ null
  pub value-int : (n : ℤ) → value (int n) ≡ int n
  pub value-str : (t : String) → value (str t) ≡ str t
  pub value-list : (xs : Items) → value (list xs) ≡ list (map_items value xs)

-- `datetime.fromisoformat` reads what `isoformat` writes.
abbrev pub ReadsDates : Host → Type 0
ReadsDates h = (d : DateTime) → h.fromisoformat (h.isoformat d) ≡ some d
