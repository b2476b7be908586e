-- ===== src/Examples/Trees.antt =====
-- JSON values as trees (shared/json), and an order to send.
use liquid_pet_project.Prelude.{
  ◌≡◌, ◌∙◌, refl, ap, none, some, Option, List, [], ◌∷◌, String, eq_string,
}
use liquid_pet_project.Prelude.Dict.{Dict, lookup}
use liquid_pet_project.Prelude.Int.{ℤ, pos}
use liquid_pet_project.Json.{
  JsonLibrary, JsonValues, json_value, Keeps, Access, found, out_of_range, type_error,
}
use liquid_pet_project.Orders.Order.{Order, created}

-- Entries are the elements of an array and the fields of an object.
pub data Tree : Type 0 where
  empty : Tree
  text_of : String → Tree
  number_of : ℤ → Tree
  array_of : Tree → Tree
  object_of : Tree → Tree
  entry : String → Tree → Tree → Tree

abbrev pub entries : Dict String Tree → Tree
entries [] = empty
entries ((key, value) ∷ rest) = entry key value (entries rest)

abbrev pub fields : Tree → Dict String Tree
fields (entry key value rest) = (key, value) ∷ fields rest
fields _ = []

abbrev pub cells : List Tree → Tree
cells [] = empty
cells (value ∷ rest) = entry "" value (cells rest)

abbrev pub values : Tree → List Tree
values (entry key value rest) = value ∷ values rest
values _ = []

abbrev pub member : Tree → String → Option Tree
member (object_of rest) key = lookup key (fields rest)
member _ key = none

abbrev pub as_text : Option Tree → Access String
as_text (some (text_of text)) = found text
as_text (some _) = type_error
as_text none = out_of_range

abbrev pub as_number : Option Tree → Access ℤ
as_number (some (number_of n)) = found n
as_number (some _) = type_error
as_number none = out_of_range

abbrev pub as_tree : Option Tree → Access Tree
as_tree (some value) = found value
as_tree none = out_of_range

abbrev pub as_elements : Tree → Option (List Tree)
as_elements (array_of rest) = some (values rest)
as_elements _ = none

fields-entries : (kept : Dict String Tree) → fields (entries kept) ≡ kept
fields-entries [] = refl
fields-entries ((key, value) ∷ rest) = ap (λ fs. (key, value) ∷ fs) (fields-entries rest)

values-cells : (kept : List Tree) → values (cells kept) ≡ kept
values-cells [] = refl
values-cells (value ∷ rest) = ap (λ vs. value ∷ vs) (values-cells rest)

-- A body is read as a fixed tree, and a tree is dumped as one text.
module _ (body : Tree) where
  abbrev pub trees : JsonLibrary
  trees = record {
    Json = Tree;
    parse = λ text. json_value body;
    string_at = λ json key. as_text (member json key);
    int_at = λ json key. as_number (member json key);
    json_at = λ json key. as_tree (member json key);
    elements = as_elements;
    null_json = empty;
    set_string = λ json key text. object_of (entry key (text_of text) empty);
    dump = λ json. "{}";
  }

  abbrev pub tree_values : JsonValues trees
  tree_values = record {
    int8_at = λ json key. as_number (member json key);
    int64_at = λ json key. as_number (member json key);
    text = text_of;
    number = number_of;
    array = λ jsons. array_of (cells jsons);
    object = λ kept. object_of (entries kept);
  }

  member_kept :
      (kept : Dict String Tree) (key : String) (value : Tree)
      → lookup key kept ≡ some value
      → member (object_of (entries kept)) key ≡ some value
  member_kept kept key value h = ap (lookup key) (fields-entries kept) ∙ h

  pub trees-Keeps : Keeps trees tree_values
  trees-Keeps = record {
    string_kept = λ kept key text h. ap as_text (member_kept kept key (text_of text) h);
    int_kept = λ kept key n h fits. ap as_number (member_kept kept key (number_of n) h);
    int8_kept = λ kept key n h fits. ap as_number (member_kept kept key (number_of n) h);
    int64_kept = λ kept key n h fits. ap as_number (member_kept kept key (number_of n) h);
    json_kept = λ kept key value h. ap as_tree (member_kept kept key value h);
    elements_kept = λ jsons. ap some (values-cells jsons);
  }

abbrev pub user_text : String
user_text = "0a1b2c3d-0000-4444-8888-0123456789ab"

abbrev pub given : String
given = "0a1b2c3d-0000-4444-8888-0123456789ac"

abbrev pub placed : Order
placed = record {
  user_id = record { value = user_text };
  order_id = none;
  items =
      record {
        product_id = record { value = user_text };
        quantity = pos 3;
        price_at_order_time = record {
          minor_units = pos 250;
          currency = record { code = "EUR"; minor_digits = pos 2 };
        };
      }
      ∷ [];
  status = created;
}
