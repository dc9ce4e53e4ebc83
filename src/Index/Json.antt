-- ===== src/Index/Json.antt =====
-- Requests, replies and the environment of a handler: parson's answers, the clock, the random
-- source, the allocator and `inet_pton`.
use redp2p_c.Prelude.{
  ℕ, Bool, true, false, ◌&&◌, ◌||◌, not, List, Option, Bytes, codes, ltb, leb, ◌==◌, if◌then◌else◌,
}
use redp2p_c.Limits.{reply_buf}
use redp2p_c.Candidates.{Inet}

pub data JsonType : Type 0 where
  json_string json_number json_array json_object json_other : JsonType

-- A finite `double`, as the comparisons and conversions of the handlers see it: a number below 0,
-- or the integer part and whether there is a fraction. (`-0.0` is `nonneg 0 false`.)
pub data Double : Type 0 where
  negative : Double
  nonneg : ℕ → Bool → Double

-- `d < 1.0`, `d > 65535.0`, `d == n` and the conversion to an integer type.
abbrev pub below_one : Double → Bool
below_one negative = true
below_one (nonneg whole fraction) = whole == 0

abbrev pub above_port : Double → Bool
above_port negative = false
above_port (nonneg whole fraction) = ltb 65535 whole || (whole == 65535 && fraction)

abbrev pub equals_int : Double → ℕ → Bool
equals_int negative n = false
equals_int (nonneg whole fraction) n = not fraction && whole == n

abbrev pub truncate : Double → ℕ
truncate negative = 0
truncate (nonneg whole fraction) = whole

-- An object inside an array: the answers of parson's accessors by field name.
pub record JsonItem : Type 0 where
  pub get_string : Bytes → Option Bytes
  pub has_value_of_type : Bytes → JsonType → Bool
  pub get_number : Bytes → Double

-- A request object. `names` are the field names in order, and an array lists its elements, `none`
-- for one that is no object.
pub record JsonObject : Type 0 where
  pub names : List Bytes
  pub has_value_of_type : Bytes → JsonType → Bool
  pub get_string : Bytes → Option Bytes
  pub get_number : Bytes → Double
  pub get_array : Bytes → List (Option JsonItem)

-- A reply, as the calls that build it leave it.
mutual
  pub data Json : Type 0 where
    string : Bytes → Json
    number : ℕ → Json
    boolean : Bool → Json
    array : Items → Json
    object : Fields → Json

  pub data Items : Type 0 where
    nil : Items
    cons : Json → Items → Items

  pub data Fields : Type 0 where
    end : Fields
    field : Bytes → Json → Fields → Fields

-- `clock n` is the reading of the n-th call of `redp2p_now_s` in the request, `random` the bytes
-- of its call of `redp2p_fill_random`, `grow n` the success of a `realloc` to n entries, and
-- `reply_alloc` and `error_alloc` that of `json_value_init_object` for the reply and for an error.
-- (The allocations of the values within a reply succeed.)
pub record Env : Type 0 where
  pub clock : ℕ → ℕ
  pub random : Option Bytes
  pub grow : ℕ → Bool
  pub reply_alloc : Bool
  pub error_alloc : Bool
  pub serialization_size : Json → ℕ
  pub serialize : Json → Bool
  pub inet : Inet

-- What a handler does to its socket: it writes a reply with a status, or nothing at all.
pub data Response : Type 0 where
  sent : ℕ → Json → Response
  dropped : Response

-- A reply that does not fit the buffer is not written.
unfoldable pub respond : Env → ℕ → Json → Response
respond env status value =
    let size = env.serialization_size value in
    if size == 0 || leb reply_buf size
    then dropped
    else if env.serialize value
    then sent status value
    else dropped

abbrev pub error_value : Bytes → Json
error_value code =
    object (field (codes "ok") (boolean false) (field (codes "error") (string code) end))

unfoldable pub respond_error : Env → ℕ → Bytes → Response
respond_error env status code =
    if env.error_alloc then respond env status (error_value code) else dropped

-- The reply of an allocated object, and error 500 where the allocation fails.
abbrev pub reply : Env → Json → Response
reply env value =
    if env.reply_alloc then respond env 200 value else respond_error env 500 (codes "internal")
