-- ===== src/Object/Rights.antt =====
-- The rights mask and the object types of src/object/handle.rs. A `Rights(u32)` is its number.
pub mod Laws
use rustux.Base.{ℕ, ◌-◌, ◌^◌, Bool, not, ◌==◌, if◌then◌else◌, bit_and, bit_or}
use rustux.Base.{Result, ok, err, Error, access_denied}

abbrev pub Rights : Type 0
Rights = ℕ

abbrev pub none : Rights
none = 0x00

abbrev pub read : Rights
read = 0x01

abbrev pub write : Rights
write = 0x02

abbrev pub execute : Rights
execute = 0x04

abbrev pub signal : Rights
signal = 0x08

abbrev pub wait : Rights
wait = 0x08

abbrev pub map : Rights
map = 0x10

abbrev pub duplicate : Rights
duplicate = 0x20

abbrev pub transfer : Rights
transfer = 0x40

abbrev pub manage : Rights
manage = 0x80

abbrev pub apply_profile : Rights
apply_profile = 0x100

abbrev pub basic : Rights
basic = 0x03

abbrev pub default : Rights
default = 0x1f

abbrev pub same_rights : Rights
same_rights = 0x8000_0000

unfoldable pub contains : Rights → Rights → Bool
contains self right = bit_and self right == right

unfoldable pub contains_any : Rights → Rights → Bool
contains_any self rights = not (bit_and self rights == 0)

unfoldable pub require : Rights → Rights → Result Error (Unit {0})
require self required = if contains self required then ok tt else err access_denied

unfoldable pub reduce : Rights → Rights → Rights
reduce self mask = bit_and self mask

unfoldable pub add : Rights → Rights → Rights
add self rights = bit_or self rights

-- `!rights.0` is the complement in 32 bits.
unfoldable pub remove : Rights → Rights → Rights
remove self rights = bit_and self (2 ^ 32 - 1 - rights)

unfoldable pub is_none : Rights → Bool
is_none self = self == 0

pub data ObjectType : Type 0 where
  unknown process thread vmo vmar channel event event_pair timer job port profile : ObjectType

unfoldable pub from_raw : ℕ → ObjectType
from_raw raw =
    if raw == 1
    then process
    else if raw == 2
    then thread
    else if raw == 3
    then vmo
    else if raw == 4
    then vmar
    else if raw == 5
    then channel
    else if raw == 6
    then event
    else if raw == 7
    then event_pair
    else if raw == 8
    then timer
    else if raw == 9
    then job
    else if raw == 10
    then port
    else if raw == 11
    then profile
    else unknown

unfoldable pub into_raw : ObjectType → ℕ
into_raw unknown = 0
into_raw process = 1
into_raw thread = 2
into_raw vmo = 3
into_raw vmar = 4
into_raw channel = 5
into_raw event = 6
into_raw event_pair = 7
into_raw timer = 8
into_raw job = 9
into_raw port = 10
into_raw profile = 11

unfoldable pub default_for_type : ObjectType → Rights
default_for_type process = manage
default_for_type thread = manage
default_for_type vmo = default
default_for_type vmar = bit_or (bit_or map read) write
default_for_type channel = bit_or read write
default_for_type event = bit_or signal wait
default_for_type event_pair = bit_or signal wait
default_for_type timer = bit_or signal write
default_for_type job = manage
default_for_type port = bit_or read write
default_for_type profile = read
default_for_type unknown = none
