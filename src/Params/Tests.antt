-- ===== src/Params/Tests.antt =====
-- Path parameters of a request, and instances of the theorems.
use flareon.Base.{
  suc, List, [], ◌∷◌, map, some, none, Text, Text-Eq, codes, lookup, insert, length, get_elem?, ◌≡◌,
  refl, arith,
}
use flareon.Matcher.{literal, param, PathMatcher, Reversed, reverse_path}
use flareon.Router.{no_routes, route, handler, router_of, handled, route_request}
use flareon.Params.{
  IndexMap, IsIndexMap, PathParams, new, insert_param, Method, get, key_at_index, Outcome, ok, err,
  ◌>>=◌, Std, Visitor, of_params, string, scalar, seq, struct, tuple, tuple_struct, deserialize,
  unsupported_type, invalid_param_number, get_single_value, len, SeqAccess, sequence,
}
use flareon.Params.Access.{Seed, next_key_seed, next_value_seed}
use flareon.Params.Reads.{deserialize_all, read_elements, read_entries, elements, entries, counted}
use flareon.Params.Routed.{insert_params, deserialize-route_request}

abbrev inserted : List (Text × Text)
inserted = (codes "user", codes "ann") ∷ (codes "id", codes "7") ∷ (codes "user", codes "bob") ∷ []

-- A map is the list of its entries.
abbrev listed : IndexMap
listed = record {
  Map = List (Text × Text);
  new = [];
  insert = insert;
  len = length;
  get = lookup;
  get_index = λ i m. get_elem? m i;
}

listed-IsIndexMap : IsIndexMap listed
listed-IsIndexMap = record {
  entries = λ m. m;
  entries-new = refl;
  entries-insert = λ key value m. refl;
  len_lem = λ m. refl;
  get_lem = λ key m. refl;
  get_index_lem = λ i m. refl;
}

abbrev two : PathParams listed
two = insert_params inserted new

-- The same name again: its value is replaced, and the positions stay.
replaced : two.params ≡ (codes "user", codes "bob") ∷ (codes "id", codes "7") ∷ []
unfolding insert_param new insert
replaced = refl

user_again :
    (get (codes "user") two ≡ some (codes "bob")) × (key_at_index 1 two ≡ some (codes "id"))
unfolding insert_param new insert get lookup
user_again = (refl, refl)

-- Texts are parsed to themselves.
abbrev texts : Std
texts = record { Value = λ _. Text; parse = λ _ t. some t; as_bytes = λ t. t }

abbrev refused : {A : Type 0} → Outcome A
refused = err (unsupported_type (codes "texts"))

-- Reads a text.
abbrev as_text : Seed listed Text
as_text d = get_single_value d

abbrev values_of : List (Text × Text) → Outcome (List Text)
values_of es = ok (map (λ e. e.1) es)

abbrev all_of : List Text → Outcome (List Text)
all_of ts = ok ts

abbrev words : Visitor listed texts (List Text)
words = record {
  value_name = codes "texts";
  visit = λ _ t. ok (t ∷ []);
  visit_borrowed_str = λ t. ok (t ∷ []);
  visit_bytes = λ _. refused;
  visit_borrowed_bytes = λ _. refused;
  visit_byte_buf = λ _. refused;
  visit_unit = refused;
  visit_some = λ _. refused;
  visit_newtype_struct = λ _. refused;
  visit_seq = λ access. of_sequence access >>= all_of;
  visit_map = λ m. read_entries (suc (len m.path_params)) as_text as_text m >>= values_of;
  visit_enum = λ _. refused;
}
  where
    of_sequence : SeqAccess listed → Outcome (List Text)
    of_sequence (sequence p i) = read_elements (suc (len p)) as_text (sequence p i)
    of_sequence (SeqAccess.array items i) = refused

deserialize_all_example :
    (deserialize (of_params two) seq words
      ≡ (elements as_text (listed-IsIndexMap.entries two.params) >>= all_of))
    × (deserialize (of_params two) (tuple 3) words
        ≡ counted two 3 (elements as_text (listed-IsIndexMap.entries two.params) >>= all_of))
    × (deserialize (of_params two) (tuple_struct 3) words
        ≡ counted two 3 (elements as_text (listed-IsIndexMap.entries two.params) >>= all_of))
    × (deserialize (of_params two) Method.map words
        ≡ (entries as_text as_text (listed-IsIndexMap.entries two.params) >>= values_of))
    × (deserialize (of_params two) (struct (codes "id" ∷ codes "user" ∷ [])) words
        ≡ counted two 2
            (entries as_text as_text (listed-IsIndexMap.entries two.params) >>= values_of))
deserialize_all_example =
    deserialize_all listed-IsIndexMap words as_text as_text as_text all_of values_of two 3
      (codes "id" ∷ codes "user" ∷ []) (λ q. refl) (λ m. refl)

counted_wrong : deserialize (of_params two) (tuple 3) words ≡ err (invalid_param_number 3 2)
unfolding deserialize insert_param new insert
counted_wrong = refl

values_in_order :
    deserialize (of_params two) (struct (codes "id" ∷ codes "user" ∷ [])) words
    ≡ ok (codes "bob" ∷ codes "7" ∷ [])
unfolding deserialize insert_param new insert read_entries next_key_seed next_value_seed
    get_single_value
values_in_order = refl

abbrev user_page : PathMatcher
user_page = record { parts = literal (codes "/u/") ∷ param (codes "user") ∷ [] }

abbrev user_given : List (Text × Text)
user_given = (codes "user", codes "ann") ∷ []

user_url : reverse_path user_page user_given ≡ Reversed.ok (codes "/u/ann")
unfolding reverse_path lookup
user_url = refl

deserialize-route_request_example :
    (ps : List (Text × Text)) × (route_request
        (router_of (route user_page (handler 4) none no_routes) [])
        (codes "/u/ann")
      ≡ handled 4 ps none)
    × (deserialize (of_params (insert_params {im = listed} ps new)) (scalar string) words
        ≡ ok (codes "ann" ∷ []))
unfolding lookup
deserialize-route_request_example =
    deserialize-route_request listed-IsIndexMap words string (codes "ann") user_page user_given
      (codes "/u/ann") (codes "user") (codes "ann") 4 none no_routes [] (tt, tt)
      ((ground arith, ground arith), tt) refl refl refl user_url
