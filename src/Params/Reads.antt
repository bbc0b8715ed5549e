-- ===== src/Params/Reads.antt =====
-- Reading all of the path parameters through the accesses of
-- cot/src/request/path_params_deserializer.rs.
use flareon.Base.{
  ℕ, zero, suc, ◌+◌, ◌<◌, List, [], ◌∷◌, Option, none, some, Text, length, drop, get_elem?, ◌≡◌,
  refl, ap, ◌∙◌, arith, if◌then◌else◌, ◌==◌,
}
use flareon.Params.{
  IndexMap, IsIndexMap, PathParams, len, Outcome, ok, err, panic, ◌>>=◌, invalid_param_number,
  of_params, of_value, SeqAccess, sequence, MapAccess, Std, Visitor, struct, map, tuple,
  tuple_struct, seq, deserialize, check_param_num,
}
use flareon.Params.Access.{Seed, next_element_seed, next_key_seed, next_value_seed}

-- A visitor's loops: it asks for elements, or for keys and values, until there are none.
abbrev pub more_elements : {A : Type 0} → Outcome (List A) → Option A → Outcome (List A)
more_elements rest none = ok []
more_elements rest (some a) = rest >>= λ as_list. ok (a ∷ as_list)

unfoldable pub read_elements :
    {im : IndexMap} {A : Type 0} → ℕ → Seed im A → SeqAccess im → Outcome (List A)
read_elements zero seed access = ok []
read_elements (suc fuel) seed access =
    let (found, access') = next_element_seed seed access in
    let rest = read_elements fuel seed access' in found >>= more_elements rest

abbrev pub more_entries :
    {K V : Type 0} → Outcome V → Outcome (List (K × V)) → Option K → Outcome (List (K × V))
more_entries value rest none = ok []
more_entries value rest (some k) = value >>= λ v. rest >>= λ read. ok ((k, v) ∷ read)

unfoldable pub read_entries :
    {im : IndexMap} {K V : Type 0}
    → ℕ
    → Seed im K
    → Seed im V
    → MapAccess im
    → Outcome (List (K × V))
read_entries zero keys values access = ok []
read_entries (suc fuel) keys values access =
    let (found, access') = next_key_seed keys access in
    let (value, access'') = next_value_seed values access' in
    let rest = read_entries fuel keys values access'' in found >>= more_entries value rest

-- What is to be read, written as a recursion on the parameters.
unfoldable pub elements :
    {im : IndexMap} {A : Type 0} → Seed im A → List (Text × Text) → Outcome (List A)
elements seed [] = ok []
elements seed ((key, value) ∷ params) =
    seed (of_value (some key) value) >>= λ a. elements seed params >>= λ as_list. ok (a ∷ as_list)

unfoldable pub entries :
    {im : IndexMap} {K V : Type 0}
    → Seed im K
    → Seed im V
    → List (Text × Text)
    → Outcome (List (K × V))
entries keys values [] = ok []
entries keys values ((key, value) ∷ params) = keys (of_value none key) >>= λ k.
    values (of_value (some key) value) >>= λ v.
    entries keys values params >>= λ rest. ok ((k, v) ∷ rest)

get_elem?-drop_nil : {A : Type 0} (xs : List A) (i : ℕ) → drop i xs ≡ [] → get_elem? xs i ≡ none
get_elem?-drop_nil [] zero h = refl
get_elem?-drop_nil [] (suc i) h = refl
get_elem?-drop_nil (x ∷ xs) zero h = absurd (cc)
get_elem?-drop_nil (x ∷ xs) (suc i) h = get_elem?-drop_nil xs i h

get_elem?-drop_cons :
    {A : Type 0} (xs : List A) (i : ℕ) {y : A} {ys : List A}
    → drop i xs ≡ y ∷ ys
    → (get_elem? xs i ≡ some y) × (drop (suc i) xs ≡ ys)
get_elem?-drop_cons [] zero h = absurd (cc)
get_elem?-drop_cons [] (suc i) h = absurd (cc)
get_elem?-drop_cons (x ∷ xs) zero h = (cc, cc)
get_elem?-drop_cons (x ∷ xs) (suc i) h = get_elem?-drop_cons xs i h

next_index : (i : ℕ) → i + 1 ≡ suc i
next_index i = omega arith

entry-step :
    {K V : Type 0} (key : Outcome K) (value : Outcome V) {rest rest' : Outcome (List (K × V))}
    → rest ≡ rest'
    → ((key >>= λ k. ok (some k)) >>= more_entries value rest)
      ≡ (key >>= λ k. value >>= λ v. rest' >>= λ read. ok ((k, v) ∷ read))
entry-step (ok k) (ok v) e = rw e
entry-step (ok k) (err x) e = refl
entry-step (ok k) panic e = refl
entry-step (err x) value e = refl
entry-step panic value e = refl

element-step :
    {A : Type 0} (o : Outcome A) {rest rest' : Outcome (List A)}
    → rest ≡ rest'
    → ((o >>= λ a. ok (some a)) >>= more_elements rest)
      ≡ (o >>= λ a. rest' >>= λ read. ok (a ∷ read))
element-step (ok a) e = rw e
element-step (err x) e = refl
element-step panic e = refl

read_entries-drop :
    {im : IndexMap} (d : IsIndexMap im) {K V : Type 0} (keys : Seed im K) (values : Seed im V)
    (p : PathParams im) (fuel i : ℕ) (rest : List (Text × Text))
    → length rest < fuel
    → drop i (d.entries p.params) ≡ rest
    → read_entries fuel keys values (record { path_params = p; index = i })
      ≡ entries keys values rest
unfolding read_entries next_key_seed next_value_seed entries
read_entries-drop d keys values p zero i rest h e = absurd (omega arith)
read_entries-drop d keys values p (suc fuel) i [] h e =
    rw (d.get_index_lem i p.params, get_elem?-drop_nil (d.entries p.params) i e)
read_entries-drop d keys values p (suc fuel) i ((key, value) ∷ rest) h e =
    let (there, behind) = get_elem?-drop_cons (d.entries p.params) i e in
    let at = d.get_index_lem i p.params ∙ there in
    rw (at, next_value_seed)
      (entry-step (keys (of_value none key)) (values (of_value (some key) value))
        (read_entries-drop d keys values p fuel (i + 1) rest (omega arith) (rw next_index behind)))

read_elements-drop :
    {im : IndexMap} (d : IsIndexMap im) {A : Type 0} (seed : Seed im A) (p : PathParams im)
    (fuel i : ℕ) (rest : List (Text × Text))
    → length rest < fuel
    → drop i (d.entries p.params) ≡ rest
    → read_elements fuel seed (sequence p i) ≡ elements seed rest
unfolding read_elements next_element_seed elements
read_elements-drop d seed p zero i rest h e = absurd (omega arith)
read_elements-drop d seed p (suc fuel) i [] h e =
    rw (d.get_index_lem i p.params, get_elem?-drop_nil (d.entries p.params) i e)
read_elements-drop d seed p (suc fuel) i ((key, value) ∷ rest) h e =
    let (there, behind) = get_elem?-drop_cons (d.entries p.params) i e in
    let at = d.get_index_lem i p.params ∙ there in
    rw (at, next_element_seed)
      (rw at (
        element-step (seed (of_value (some key) value))
          (read_elements-drop d seed p fuel (i + 1) rest (omega arith) (rw next_index behind))))

-- A count of parameters that is not met.
abbrev pub counted : {im : IndexMap} {A : Type 0} → PathParams im → ℕ → Outcome A → Outcome A
counted p n read = if len p == n then read else err (invalid_param_number n (len p))

counted-check :
    {im : IndexMap} {A : Type 0} (p : PathParams im) (n : ℕ) (o : Outcome A)
    → (check_param_num p n >>= λ _. o) ≡ counted p n o
counted-check p n o = ground arith

-- Over an `IndexMap` that does what is documented, for a visitor that asks for all elements of a sequence, and for all keys and values of a map, until
-- there are none: sequences and maps of the parameters are read as by recursion on the parameters,
-- the value of each with its key at hand, up to the first error; tuples, tuple structures and
-- structures too, if they have as many fields as there are parameters, and otherwise the error
-- has the two numbers.
pub deserialize_all :
    {im : IndexMap} (d : IsIndexMap im) {A B K V : Type 0} {std : Std} (visitor : Visitor im std A)
    (items : Seed im B) (keys : Seed im K) (values : Seed im V) (of_items : List B → Outcome A)
    (of_entries : List (K × V) → Outcome A) (p : PathParams im) (n : ℕ) (fields : List Text)
    → ((q : PathParams im)
        → visitor.visit_seq (sequence q 0)
          ≡ (read_elements (suc (len q)) items (sequence q 0) >>= of_items))
    → ((m : MapAccess im)
        → visitor.visit_map m
          ≡ (read_entries (suc (len m.path_params)) keys values m >>= of_entries))
    → (deserialize (of_params p) seq visitor ≡ (elements items (d.entries p.params) >>= of_items))
      × (deserialize (of_params p) (tuple n) visitor
          ≡ counted p n (elements items (d.entries p.params) >>= of_items))
      × (deserialize (of_params p) (tuple_struct n) visitor
          ≡ counted p n (elements items (d.entries p.params) >>= of_items))
      × (deserialize (of_params p) map visitor
          ≡ (entries keys values (d.entries p.params) >>= of_entries))
      × (deserialize (of_params p) (struct fields) visitor
          ≡ counted p (length fields) (entries keys values (d.entries p.params) >>= of_entries))
unfolding deserialize
deserialize_all d visitor items keys values of_items of_entries p n fields as_seq as_map =
    let s =
      as_seq p
      ∙ ap (λ o. o >>= of_items)
          (read_elements-drop d items p (suc (len p)) 0 (d.entries p.params)
            (rw (d.len_lem p.params) (omega arith)) refl) in
    let m =
      as_map (record { path_params = p; index = 0 })
      ∙ ap (λ o. o >>= of_entries)
          (read_entries-drop d keys values p (suc (len p)) 0 (d.entries p.params)
            (rw (d.len_lem p.params) (omega arith)) refl) in
    (
      s,
      rw s (counted-check p n _),
      rw s (counted-check p n _),
      m,
      rw m (counted-check p (length fields) _),
    )
