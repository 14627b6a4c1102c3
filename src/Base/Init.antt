-- ===== src/Base/Init.antt =====
-- The constructor of `BaseServer`: where a setting comes from.
pub mod Precedence
mod Tests
use honeypots.Prelude.{
  ℕ, zero, suc, Bool, true, false, Option, none, some, List, [], ◌∷◌, ◌==◌, if◌then◌else◌,
}
use honeypots.Python.Bytes.{Text, codes, bytes_eq}
use honeypots.Python.Number.{parse_int}
use honeypots.Python.Result.{Result, ok, raised, Exn, ◌>>=◌}
use honeypots.Python.Value.{
  Value, Fields, Items, null, bool, int, neg, text, bytes, array, dict, nil, end, field, get, put,
}

-- The attributes of the object that a configuration set, and what the constructor sets itself.
pub record Attributes : Type 0 where
  pub set_ : Fields
  pub auto_disabled : Bool

pub record Settings : Type 0 where
  pub ip : Value
  pub port : Value
  pub username : Value
  pub password : Value
  pub options : Value
  pub auto_disabled : Bool

-- `DEFAULT_PORT`, `DEFAULT_USERNAME` and `DEFAULT_PASSWORD` of the class.
pub record Defaults : Type 0 where
  pub port : ℕ
  pub username : Text
  pub password : Text

-- `bool(value)`
unfoldable pub truthy : Value → Bool
truthy null = false
truthy (bool b) = b
truthy (int zero) = false
truthy (text []) = false
truthy (bytes []) = false
truthy (array nil) = false
truthy (dict end) = false
truthy _ = true

-- `setattr(self, attr, value)`; `auto_disabled` is an attribute like the others, kept by its truth.
abbrev pub set_attribute : Text → Value → Attributes → Attributes
set_attribute k v a = record {
  set_ = put a.set_ k v;
  auto_disabled =
      if bytes_eq k (codes "port")
      then true
      else if bytes_eq k (codes "auto_disabled")
      then truthy v
      else a.auto_disabled;
}

-- `set_local_vars`: the items of the server in the configuration become attributes.
unfoldable pub set_local_vars : Fields → Attributes → Attributes
unfolding put bytes_eq truthy
set_local_vars end a = a
set_local_vars (field k v d) a = set_local_vars d (set_attribute k v a)

-- `a or b`
unfoldable pub or_value : Value → Value → Value
unfolding truthy
or_value a b = if truthy a then a else b

abbrev or_null : Option Value → Value
or_null none = null
or_null (some v) = v

-- `hasattr(self, name) and self.name`
abbrev attribute : Fields → Text → Value
attribute d k = elim (get d k) [ none ↦ bool false | some v ↦ v ]

unfoldable pub to_int : Value → Result Value
unfolding parse_int
to_int (bool true) = ok (int 1)
to_int (bool false) = ok (int 0)
to_int (int n) = ok (int n)
to_int (neg n) = ok (neg n)
to_int (text t) = elim (parse_int t) [ none ↦ raised Exn.value_error | some v ↦ ok v ]
to_int _ = raised Exn.type_error

-- `kwargs.get("port", None) and int(kwargs.get("port", None))`
unfoldable pub port_argument : Fields → Result Value
unfolding get truthy to_int
port_argument kwargs =
    let v = or_null (get kwargs (codes "port")) in if truthy v then to_int v else ok v

-- an argument, or else the attribute, or else the default
unfoldable pub setting : Fields → Fields → Text → Value → Value
unfolding get or_value
setting kwargs set_ name default =
    or_value (or_value (or_null (get kwargs name)) (attribute set_ name)) default

abbrev pub fresh : Attributes
fresh = record { set_ = end; auto_disabled = false }

abbrev pub configured : Option Fields → Attributes
configured none = fresh
configured (some d) = set_local_vars d fresh

-- `env_options` is the variable HONEYPOTS_OPTIONS; `config` holds the items of this server, if there
-- is a configuration.
unfoldable pub init : Defaults → Text → Option Fields → Fields → Result Settings
unfolding set_local_vars or_value port_argument setting
init c env_options config kwargs =
    let a = configured config in
    do
      port ← port_argument kwargs
      ok (record {
        ip = setting kwargs a.set_ (codes "ip") (text (codes "0.0.0.0"));
        port = or_value (or_value port (attribute a.set_ (codes "port"))) (int c.port);
        username = setting kwargs a.set_ (codes "username") (text c.username);
        password = setting kwargs a.set_ (codes "password") (text c.password);
        options = setting kwargs a.set_ (codes "options") (text env_options);
        auto_disabled = a.auto_disabled;
      })
