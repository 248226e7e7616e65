-- ===== src/Kafka/Published.antt =====
-- What a message of pkg/kafka/producer.go carries.
use mbsscaner.Prelude.{
  String, str_eq, ◌≡◌, refl, ap, ◌∙◌, List, [], ◌∷◌, false, some, lookup, put, lookup-put_self,
  lookup-put_other, All,
}
use mbsscaner.Modbus.Value.{Value}
use mbsscaner.Modbus.Collect.{PointValue}
use mbsscaner.Kafka.{add_values, simple_message}

-- No later value has the name.
abbrev pub Differs : String → PointValue → Type 0
Differs name v = str_eq v.name name ≡ false

-- No two values share a name.
abbrev pub HasDistinctNames : List PointValue → Type 0
HasDistinctNames [] = Unit
HasDistinctNames (v ∷ vs) = All (Differs v.name) vs × HasDistinctNames vs

add_values-other :
    (m : List (String × Value)) (name : String) (vs : List PointValue)
    → All (Differs name) vs
    → lookup name (add_values m vs) ≡ lookup name m
unfolding add_values
add_values-other m name [] h = refl
add_values-other m name (v ∷ vs) h =
    add_values-other (put v.name v.value m) name vs h.1 ∙ lookup-put_other v.name name v.value m h.0

add_values-All :
    (m : List (String × Value)) (vs : List PointValue)
    → HasDistinctNames vs
    → All (λ v. lookup v.name (add_values m vs) ≡ some v.value) vs
unfolding add_values
add_values-All m [] h = tt
add_values-All m (v ∷ vs) h = (
  add_values-other (put v.name v.value m) v.name vs h.0 ∙ lookup-put_self v.name v.value m,
  add_values-All (put v.name v.value m) vs h.1,
)

-- If no two values share a name, the message has every value under its name: none is overwritten.
pub simple_message-All :
    (device : String) (vs : List PointValue)
    → HasDistinctNames vs
    → All (λ v. lookup v.name (simple_message device vs).values ≡ some v.value) vs
unfolding simple_message
simple_message-All device vs h = add_values-All [] vs h

-- Of two values with one name the later one is in the message.
pub later_value_wins :
    (device : String) (v w : PointValue) (vs : List PointValue)
    → v.name ≡ w.name
    → All (Differs w.name) vs
    → lookup v.name (simple_message device (v ∷ w ∷ vs)).values ≡ some w.value
unfolding simple_message add_values
later_value_wins device v w vs e h =
    ap (λ n. lookup n (simple_message device (v ∷ w ∷ vs)).values) e
    ∙ add_values-other (put w.name w.value (put v.name v.value [])) w.name vs h
    ∙ lookup-put_self w.name w.value (put v.name v.value [])
