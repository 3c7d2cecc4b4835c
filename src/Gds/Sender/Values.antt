-- ===== src/Gds/Sender/Values.antt =====
-- The Python values in the events of gds/app/dmz_collector_sender.py. A number stands for itself by its
-- spelling in JSON, bytes are not empty, a date by its ISO text (a datetime's in UTC), and a key by its `str()`.
use opcua_implementaion.Prelude.{String, Bool, Option, none, some, ◌==◌, string_eq, if◌then◌else◌}

mutual
  pub data Value : Type 0 where
    null bytes : Value
    flag : Bool → Value
    number decimal datetime date str : String → Value
    sequence tuple : Values → Value
    dict : Fields → Value

  pub data Values : Type 0 where
    no_value : Values
    item : Value → Values → Values

  pub data Fields : Type 0 where
    no_field : Fields
    field : String → Value → Fields → Fields

-- `d.get(k)`
unfoldable pub get_field : String → Fields → Option Value
get_field k no_field = none
get_field k (field j v fs) = if j == k then some v else get_field k fs

-- `d[k] = v`
unfoldable pub put_field : String → Value → Fields → Fields
put_field k v no_field = field k v no_field
put_field k v (field j w fs) = if j == k then field j v fs else field j w (put_field k v fs)

-- `{**fs, **gs}`
unfoldable pub merge : Fields → Fields → Fields
merge fs no_field = fs
merge fs (field k v gs) = merge (put_field k v fs) gs
