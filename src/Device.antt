-- ===== src/Device.antt =====
-- Devices of the daemon that a digital output switches: bytd/src/Pumpa.cpp and OnOffDevice.cpp. The
-- output (`IDigiOut`) shows the value that was last written to it; what goes to MQTT is listed.
pub mod Laws
use byt.Base.{
  ℕ, suc, ◌+◌, Bool, true, false, not, Option, none, some, List, [], ◌∷◌, ltb, if◌then◌else◌,
}

-- `a != b` of two Booleans.
abbrev pub differ : Bool → Bool → Bool
differ true b = not b
differ false b = b

-- `Pumpa`: `plamen_off_count` is none for -1.
pub record Pump : Type 0 where
  pub out : Bool
  pub plamen_off_count : Option ℕ
  pub published : List Bool  -- newest first

abbrev pub max_plamen_off : ℕ
max_plamen_off = 6

unfoldable pub set_pumpa : Bool → Pump → Pump
set_pumpa v s = if differ v s.out then record s { out = v; published = v ∷ s.published } else s

unfoldable pub start : Pump → Pump
unfolding set_pumpa
start s = record (set_pumpa true s) { plamen_off_count = some 0 }

unfoldable pub stop : Pump → Pump
unfolding set_pumpa
stop s = record (set_pumpa false s) { plamen_off_count = none }

unfoldable pub on_plamen_off : Pump → Pump
unfolding stop
on_plamen_off s = elim s.plamen_off_count [
  | none ↦ s
  | some n ↦
      let t = record s { plamen_off_count = some (n + 1) } in
      if ltb max_plamen_off (n + 1) then stop t else t
]

-- `OnOffDevice`.
pub record OnOff : Type 0 where
  pub out : Bool
  pub out_inverted : Bool
  pub published : List Bool  -- newest first

unfoldable pub make_on_off : Bool → OnOff
make_on_off inverted = record { out = inverted; out_inverted = inverted; published = [] }

unfoldable pub get : OnOff → Bool
get s = differ s.out s.out_inverted

unfoldable pub toggle : OnOff → OnOff
toggle s =
    let new_val = not (differ s.out s.out_inverted) in
    record s { out = differ new_val s.out_inverted; published = new_val ∷ s.published }

unfoldable pub set_on : Bool → Bool → OnOff → OnOff
set_on on by_mqtt s =
    let t = record s { out = differ on s.out_inverted } in
    if differ on (differ s.out s.out_inverted)
    then (if not by_mqtt then record t { published = on ∷ s.published } else t)
    else s
