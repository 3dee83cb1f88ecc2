-- ===== src/Json/Sample.antt =====
-- A `Host` for the tests: JSON values are written as the steps of a stack machine that builds them,
-- so every value reads back as it was.
use Prim.Native.Char.{Char, code}
use mathlib.Core.Option
use agent_runtime_lab.Prelude.{
  ℕ, zero, suc, ◌+◌, String, ◌≡◌, refl, sym, ap, ◌∙◌, Bool, true, false, ◌==◌, Option, none, some,
  List, [], ◌∷◌, if◌then◌else◌, arith,
}
use agent_runtime_lab.Prelude.Int.{ℤ, pos, negsuc}
use agent_runtime_lab.Json.{
  Json, Items, Fields, null, bool, int, float, str, list, dict, no_items, item, no_fields, field,
  map_items, get, DateTime, Host, IsCanonical, ReadsBack, ReadsDates,
}

abbrev successor : List Json → List Json
successor (int (pos n) ∷ stack) = int (pos (suc n)) ∷ stack
successor stack = stack

abbrev negated : List Json → List Json
negated (int (pos n) ∷ stack) = int (negsuc n) ∷ stack
negated stack = stack

abbrev fraction : List Json → List Json
fraction (int (pos k) ∷ int m ∷ stack) = float m k ∷ stack
fraction stack = stack

abbrev prepend_char : Char → List Json → List Json
prepend_char c (str s ∷ stack) = str (String.◌∷◌ c s) ∷ stack
prepend_char c stack = stack

abbrev prepend_item : List Json → List Json
prepend_item (v ∷ list xs ∷ stack) = list (item v xs) ∷ stack
prepend_item stack = stack

abbrev prepend_field : List Json → List Json
prepend_field (v ∷ str k ∷ dict d ∷ stack) = dict (field k v d) ∷ stack
prepend_field stack = stack

abbrev step : ℕ → List Json → List Json
step n stack =
    if n == b'n'
    then null ∷ stack
    else if n == b't'
    then bool true ∷ stack
    else if n == b'f'
    then bool false ∷ stack
    else if n == b'z'
    then int (pos 0) ∷ stack
    else if n == b's'
    then successor stack
    else if n == b'm'
    then negated stack
    else if n == b'g'
    then fraction stack
    else if n == b'q'
    then str "" ∷ stack
    else if n == b'l'
    then list no_items ∷ stack
    else if n == b','
    then prepend_item stack
    else if n == b'd'
    then dict no_fields ∷ stack
    else if n == b':'
    then prepend_field stack
    else stack

abbrev result : List Json → Option Json
result (v ∷ []) = some v
result _ = none

-- The machine, with a mark that the next character is one of a text.
run : String → Bool → List Json → Option Json
run String.[] quoted stack = result stack
run (String.◌∷◌ c rest) true stack = run rest false (prepend_char c stack)
run (String.◌∷◌ c rest) false stack = run rest (code c == b'c') (step (code c) stack)

successors : ℕ → String → String
successors zero rest = rest
successors (suc n) rest = String.◌∷◌ "s" (successors n rest)

print_text : String → String → String
print_text String.[] rest = String.◌∷◌ "q" rest
print_text (String.◌∷◌ c s) rest = print_text s (String.◌∷◌ "c" (String.◌∷◌ c rest))

abbrev print_int : ℤ → String → String
print_int (pos n) rest = String.◌∷◌ "z" (successors n rest)
print_int (negsuc n) rest = String.◌∷◌ "z" (successors n (String.◌∷◌ "m" rest))

-- The steps that build a value, before the rest.
mutual
  print : Json → String → String
  print null rest = String.◌∷◌ "n" rest
  print (bool true) rest = String.◌∷◌ "t" rest
  print (bool false) rest = String.◌∷◌ "f" rest
  print (int n) rest = print_int n rest
  print (float m k) rest = print_int m (String.◌∷◌ "z" (successors k (String.◌∷◌ "g" rest)))
  print (str s) rest = print_text s rest
  print (list xs) rest = print_items xs rest
  print (dict d) rest = print_fields d rest

  print_items : Items → String → String
  print_items no_items rest = String.◌∷◌ "l" rest
  print_items (item v xs) rest = print_items xs (print v (String.◌∷◌ "," rest))

  print_fields : Fields → String → String
  print_fields no_fields rest = String.◌∷◌ "d" rest
  print_fields (field k v d) rest = print_fields d (print_text k (print v (String.◌∷◌ ":" rest)))

run-successors :
    (n k : ℕ) (rest : String) (stack : List Json)
    → run (successors n rest) false (int (pos k) ∷ stack)
      ≡ run rest false (int (pos (n + k)) ∷ stack)
unfolding run successors
run-successors zero k rest stack = ap (λ m. run rest false (int (pos m) ∷ stack)) (omega arith)
run-successors (suc n) k rest stack =
    run-successors n (suc k) rest stack
    ∙ ap (λ m. run rest false (int (pos m) ∷ stack)) (omega arith)

run-print_text :
    (s rest : String) (stack : List Json)
    → run (print_text s rest) false stack ≡ run rest false (str s ∷ stack)
unfolding run print_text
run-print_text String.[] rest stack = refl
run-print_text (String.◌∷◌ c s) rest stack =
    run-print_text s (String.◌∷◌ "c" (String.◌∷◌ c rest)) stack

plus_zero : (n : ℕ) → n + 0 ≡ n
plus_zero n = omega arith

run-print_int :
    (n : ℤ) (rest : String) (stack : List Json)
    → run (print_int n rest) false stack ≡ run rest false (int n ∷ stack)
unfolding run
run-print_int (pos n) rest stack =
    run-successors n 0 rest stack ∙ ap (λ m. run rest false (int (pos m) ∷ stack)) (plus_zero n)
run-print_int (negsuc n) rest stack =
    run-successors n 0 (String.◌∷◌ "m" rest) stack
    ∙ ap (λ m. run rest false (int (negsuc m) ∷ stack)) (plus_zero n)

mutual
  unfolding run print print_items print_fields

  run-print :
      (v : Json) (rest : String) (stack : List Json)
      → run (print v rest) false stack ≡ run rest false (v ∷ stack)
  run-print null rest stack = refl
  run-print (bool true) rest stack = refl
  run-print (bool false) rest stack = refl
  run-print (int n) rest stack = run-print_int n rest stack
  run-print (float m k) rest stack =
      run-print_int m (String.◌∷◌ "z" (successors k (String.◌∷◌ "g" rest))) stack
      ∙ run-successors k 0 (String.◌∷◌ "g" rest) (int m ∷ stack)
      ∙ ap (λ n. run rest false (float m n ∷ stack)) (plus_zero k)
  run-print (str s) rest stack = run-print_text s rest stack
  run-print (list xs) rest stack = run-print_items xs rest stack
  run-print (dict d) rest stack = run-print_fields d rest stack

  run-print_items :
      (xs : Items) (rest : String) (stack : List Json)
      → run (print_items xs rest) false stack ≡ run rest false (list xs ∷ stack)
  run-print_items no_items rest stack = refl
  run-print_items (item v xs) rest stack =
      run-print_items xs (print v (String.◌∷◌ "," rest)) stack
      ∙ run-print v (String.◌∷◌ "," rest) (list xs ∷ stack)

  run-print_fields :
      (d : Fields) (rest : String) (stack : List Json)
      → run (print_fields d rest) false stack ≡ run rest false (dict d ∷ stack)
  run-print_fields no_fields rest stack = refl
  run-print_fields (field k v d) rest stack =
      run-print_fields d (print_text k (print v (String.◌∷◌ ":" rest))) stack
      ∙ run-print_text k (print v (String.◌∷◌ ":" rest)) (dict d ∷ stack)
      ∙ run-print v (String.◌∷◌ ":" rest) (str k ∷ dict d ∷ stack)

unfoldable pub sample_dumps : Json → String
unfolding print print_items print_fields print_text successors
sample_dumps v = print v ""

unfoldable pub sample_loads : String → Option Json
unfolding run
sample_loads text = run text false []

sample_loads-sample_dumps : (v : Json) → sample_loads (sample_dumps v) ≡ some v
unfolding sample_loads sample_dumps run
sample_loads-sample_dumps v = run-print v "" []

abbrev json_offset : Option ℤ → Json
json_offset none = null
json_offset (some n) = int n

abbrev json_date : DateTime → Json
json_date d = list (item (int (pos d.instant)) (item (json_offset d.utcoffset) no_items))

abbrev date_of : Option Json → Option DateTime
date_of (some (list (item (int (pos n)) (item null no_items)))) =
    some (record { instant = n; utcoffset = none })
date_of (some (list (item (int (pos n)) (item (int k) no_items)))) =
    some (record { instant = n; utcoffset = some k })
date_of _ = none

date_of-json_date :
    (d : DateTime) (o : Option ℤ) → d.utcoffset ≡ o → date_of (some (json_date d)) ≡ some d
date_of-json_date d none e = ground (arith, e)
date_of-json_date d (some n) e = ground (arith, e)

abbrev pub sample_host : Host
sample_host = record {
  dumps = sample_dumps;
  loads = sample_loads;
  sha256 = λ text. text;
  isoformat = λ d. sample_dumps (json_date d);
  fromisoformat = λ text. date_of (sample_loads text);
}

pub sample_host-ReadsDates : ReadsDates sample_host
sample_host-ReadsDates d =
    ap date_of (sample_loads-sample_dumps (json_date d)) ∙ date_of-json_date d d.utcoffset refl

map_items_id : (xs : Items) → map_items (λ v. v) xs ≡ xs
map_items_id no_items = refl
map_items_id (item v xs) = ap (λ rest. item v rest) (map_items_id xs)

map_id : (o : Option Json) → o ≡ Option.map (λ v. v) o
map_id none = refl
map_id (some v) = refl

pub canonical_lem : (d : Fields) → sample_loads (sample_dumps (dict d)) ≡ some (dict d)
canonical_lem d = sample_loads-sample_dumps (dict d)

abbrev pub sample_canonical : IsCanonical sample_host
sample_canonical = record { reread = λ d. d; loads-dumps = canonical_lem; dumps-reread = λ d. refl }

pub sample_host-ReadsBack : ReadsBack sample_host sample_canonical
sample_host-ReadsBack = record {
  value = λ v. v;
  get-reread = λ k d. map_id (get k d);
  keys-reread = λ p d. refl;
  value-null = refl;
  value-int = λ n. refl;
  value-str = λ t. refl;
  value-list = λ xs. ap list (sym (map_items_id xs));
}
