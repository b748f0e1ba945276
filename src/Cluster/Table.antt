-- ===== src/Cluster/Table.antt =====
-- cluster/manager.py: the tables of `SQLiteStateBackend`. A row keeps its primary key and the column
-- `data`; the other columns are written and never read. `json.dumps` and `json.loads` are the
-- identity on dictionaries. `fetch_one` and `fetch_all` are the selections of the code, which raise an
-- exception where a row cannot be decoded; `load_one` and `load_all` are what they return on a table.
use pico_dome.Base.{
  String, Option, none, some, List, [], ◌∷◌, ◌≡◌, refl, inl, inr, arith, Memᴰ, if◌then◌else◌,
  Bool-cases, Option-cases, mem-cons_cases,
}
use pico_dome.Base.Text.{str_eq, eq_iff}
use pico_dome.Base.Dict.{
  Dict, lookup, pop, values, replace, lookup-replace, lookup-pop, IsKeyed, replace-IsKeyed,
  pop-IsKeyed, lookup_of_mem, mem_of_lookup,
}
use pico_dome.Cluster.Node.{Result, ok, err, Result-cases}

-- A table of rows `D` that hold values `V` with a key, in the form in which they are stored.
module _ {V D : Type 0} (key : V → String) (encode : V → D) (decode : D → Result V)
    (decode-encode : (v : V) → decode (encode v) ≡ ok v) where
  abbrev pub Row : Type 0
  Row = String × D

  abbrev pub row_key : Row → String
  row_key r = r.0

  abbrev pub decode_row : Option Row → Result (Option V)
  decode_row none = ok none
  decode_row (some r) = elim (decode r.1) [ ok v ↦ ok (some v) | err e ↦ err e ]

  abbrev pub decode_rows : List Row → Result (List V)
  decode_rows [] = ok []
  decode_rows (r ∷ rs) = elim (decode r.1) [
    | err e ↦ err e
    | ok v ↦ elim (decode_rows rs) [ ok vs ↦ ok (v ∷ vs) | err e ↦ err e ]
  ]

  -- `SELECT data FROM … WHERE … = ?`
  abbrev pub fetch_one : String → Dict Row → Result (Option V)
  fetch_one i t = decode_row (lookup i t)

  -- `SELECT data FROM …`
  abbrev pub fetch_all : Dict Row → Result (List V)
  fetch_all t = decode_rows (values t)

  abbrev pub read_row : Option Row → Option V
  read_row none = none
  read_row (some r) = elim (decode r.1) [ ok v ↦ some v | err _ ↦ none ]

  -- `INSERT OR REPLACE INTO …`
  abbrev pub save : V → Dict Row → Dict Row
  save v t = replace (key v) (key v, encode v) t

  abbrev pub load_one : String → Dict Row → Option V
  load_one i t = read_row (lookup i t)

  abbrev pub read_rows : List Row → List V
  read_rows [] = []
  read_rows (r ∷ rs) = elim (decode r.1) [ ok v ↦ v ∷ read_rows rs | err _ ↦ read_rows rs ]

  abbrev pub load_all : Dict Row → List V
  load_all t = read_rows (values t)

  -- Each row can be read, and its value has the row's key.
  abbrev pub HasRows : Dict Row → Type 0
  HasRows t =
      (i : String) (r : Row) → lookup i t ≡ some r → (v : V) × (decode r.1 ≡ ok v) × (key v ≡ i)

  abbrev pub IsTable : Dict Row → Type 0
  IsTable t = IsKeyed row_key t × HasRows t

  -- On a table no selection raises an exception.
  pub fetch_one_ok : (i : String) (t : Dict Row) → IsTable t → fetch_one i t ≡ ok (load_one i t)
  fetch_one_ok i t h = elim (Option-cases (lookup i t)) [
    | inl l ↦ rw l refl
    | inr (r, l) ↦ let (v, d, _) = h.1 i r l in rw (l, decode_row, read_row, d) refl
  ]

  decode_rows_ok :
      (rs : List Row)
      → ((r : Row) → Memᴰ r rs → (v : V) × (decode r.1 ≡ ok v))
      → decode_rows rs ≡ ok (read_rows rs)
  decode_rows_ok [] h = refl
  decode_rows_ok (r ∷ rs) h =
      let (v, d) = h r (Memᴰ.head refl) in
      rw (decode_rows, read_rows, d, decode_rows_ok rs (λ q m. h q (Memᴰ.tail m))) refl

  pub fetch_all_ok : (t : Dict Row) → IsTable t → fetch_all t ≡ ok (load_all t)
  fetch_all_ok t h =
      decode_rows_ok (values t)
        (λ r m. let (v, d, _) = h.1 r.0 r (lookup_of_mem row_key t h.0 m) in (v, d))

  pub load_one-save :
      (i : String) (v : V) (t : Dict Row)
      → load_one i (save v t) ≡ (if str_eq (key v) i then some v else load_one i t)
  load_one-save i v t = elim (Bool-cases (str_eq (key v) i)) [
    | inl q ↦ rw (lookup-replace, q, decode-encode v)
    | inr q ↦ rw (lookup-replace, q)
  ]

  pub load_one-pop :
      (i j : String) (t : Dict Row)
      → load_one i (pop j t) ≡ (if str_eq j i then none else load_one i t)
  load_one-pop i j t = elim (Bool-cases (str_eq j i)) [
    | inl q ↦ rw (lookup-pop, q)
    | inr q ↦ rw (lookup-pop, q)
  ]

  pub save-IsTable : (v : V) (t : Dict Row) → IsTable t → IsTable (save v t)
  save-IsTable v t h = (
    replace-IsKeyed row_key (key v) (key v, encode v) t refl h.0,
    λ i r e. elim (Bool-cases (str_eq (key v) i)) [
      | inl q ↦
          let new : some (key v, encode v) ≡ some r = rw (lookup-replace, q) at e in
          (v, cc (decode-encode v), (eq_iff (key v) i).0 q)
      | inr q ↦ h.1 i r (rw (lookup-replace, q) at e)
    ],
  )

  pub pop-IsTable : (i : String) (t : Dict Row) → IsTable t → IsTable (pop i t)
  pop-IsTable i t h = (
    pop-IsKeyed row_key i t h.0,
    λ j r e. elim (Bool-cases (str_eq i j)) [
      | inl q ↦ (let bad : none ≡ some r = rw (lookup-pop, q) at e in cc)
      | inr q ↦ h.1 j r (rw (lookup-pop, q) at e)
    ],
  )

  pub load_one_key :
      (i : String) (v : V) (t : Dict Row) → IsTable t → load_one i t ≡ some v → key v ≡ i
  load_one_key i v t h e = elim (Option-cases (lookup i t)) [
    | inl l ↦ ground arith
    | inr (r, l) ↦
        let (w, d, k) = h.1 i r l in let same : some w ≡ some v = rw (l, read_row, d) at e in cc
  ]

  mem-read_rows :
      (r : Row) (v : V) (rs : List Row) → Memᴰ r rs → decode r.1 ≡ ok v → Memᴰ v (read_rows rs)
  mem-read_rows r v [] m e = elim m [ ]
  mem-read_rows r v (x ∷ rs) m e = elim (mem-cons_cases m) [
    | inl q ↦ let d : decode x.1 ≡ ok v = rw q at e in rw (read_rows, d) (Memᴰ.head refl)
    | inr n ↦ elim (Result-cases (decode x.1)) [
      | inl (w, d) ↦ rw (read_rows, d) (Memᴰ.tail (mem-read_rows r v rs n e))
      | inr (w, d) ↦ rw (read_rows, d) (mem-read_rows r v rs n e)
    ]
  ]

  mem_of_mem-read_rows :
      (v : V) (rs : List Row) → Memᴰ v (read_rows rs) → (r : Row) × Memᴰ r rs × (decode r.1 ≡ ok v)
  mem_of_mem-read_rows v [] m = elim m [ ]
  mem_of_mem-read_rows v (x ∷ rs) m = elim (Result-cases (decode x.1)) [
    | inr (w, d) ↦
        let (r, n, e) = mem_of_mem-read_rows v rs (rw (read_rows, d) at m) in (r, Memᴰ.tail n, e)
    | inl (w, d) ↦ elim (mem-cons_cases (rw (read_rows, d) at m)) [
      | inl q ↦ (x, Memᴰ.head refl, rw q d)
      | inr n ↦ let (r, k, e) = mem_of_mem-read_rows v rs n in (r, Memᴰ.tail k, e)
    ]
  ]

  pub mem-load_all :
      (i : String) (v : V) (t : Dict Row) → load_one i t ≡ some v → Memᴰ v (load_all t)
  mem-load_all i v t e = elim (Option-cases (lookup i t)) [
    | inl l ↦ ground arith
    | inr (r, l) ↦ mem-read_rows r v (values t) (mem_of_lookup i t l) (ground arith)
  ]

  pub load_one_of_mem :
      (v : V) (t : Dict Row) → IsTable t → Memᴰ v (load_all t) → load_one (key v) t ≡ some v
  load_one_of_mem v t h m =
      let (r, n, d) = mem_of_mem-read_rows v (values t) m in
      let l = lookup_of_mem row_key t h.0 n in
      let (w, d', k) = h.1 r.0 r l in
      let same : v ≡ w = cc in
      let at_key : lookup (key v) t ≡ some r = cc in rw (at_key, read_row, d)
