-- ===== src/Tests/Json.antt =====
-- A value type and codecs with which the interface to `serde_json` can be filled: rows, lists of
-- rows and strings are written as their numbers, the other types are refused by `to_vec`.
use chu_sql.Base.{
  ℕ, ◌≡◌, refl, ap, subst, Bool, false, Option, none, some, List, [], ◌∷◌, is_some, unwrap_or,
  if◌then◌else◌, bytes_eq,
}
use chu_sql.Base.{and_then as ◌>>=◌}
use chu_sql.Base.Bytes.{Bytes}
use chu_sql.Base.Text.{Str, ascii}
use chu_sql.Protocol.{Account}
use chu_sql.Wal.Op.{HideColumnPayload, Codec, ReadBack, Serde}

pub data Json : Type 0 where
  null : Json
  bool : Bool → Json
  text : Str → Json
  version : Option ℕ → Json
  accounts : List Account → Json
  texts : List Str → Json
  object : (Str → Bool) → (Str → Json) → Json

abbrev pub refused : {A : Type 0} → Codec A
refused = record { to_vec = λ a. none; from_slice = λ bs. none }

abbrev pub number : Codec ℕ
number = record {
  to_vec = λ n. some (n ∷ []);
  from_slice = λ bs. elim bs [ [] ↦ none | n ∷ ns ↦ some n ];
}

abbrev pub plain : Codec (List ℕ)
plain = record { to_vec = λ ns. some ns; from_slice = λ bs. some bs }

abbrev pub get : Json → Str → Option Json
get (object has at) k = if has k then some (at k) else none
get _ k = none

abbrev pub as_text : Json → Option Str
as_text (text s) = some s
as_text _ = none

abbrev pub as_version : Json → Option (Option ℕ)
as_version (version v) = some v
as_version _ = none

abbrev pub as_bool : Json → Option Bool
as_bool (bool b) = some b
as_bool _ = none

abbrev pub to_accounts : Json → Option (List Account)
to_accounts (accounts a) = some a
to_accounts _ = none

abbrev pub to_texts : Json → Option (List Str)
to_texts (texts ts) = some ts
to_texts _ = none

abbrev pub field : {V : Type 0} → Str → List (Str × V) → Option V
field k [] = none
field k ((j, v) ∷ fs) = if bytes_eq j k then some v else field k fs

abbrev pub object_of : List (Str × Json) → Json
object_of fs = object (λ k. is_some (field k fs)) (λ k. unwrap_or (field k fs) null)

abbrev pub to_hide : Json → Option HideColumnPayload
to_hide j = do
  c ← get j (ascii "column")
  s ← as_text c
  x ← get j (ascii "schema_version")
  v ← as_version x
  some (record { column = s; schema_version = v })

abbrev pub json : Serde
json = record {
  Value = Json;
  Row = ℕ;
  value = refused;
  row = number;
  rows = plain;
  keys = refused;
  text = plain;
  drop_payload = refused;
  schema_payload = refused;
  table_payload = refused;
  wal_op = refused;
  object = object_of;
  of_text = text;
  of_version = version;
  of_accounts = accounts;
  of_texts = texts;
  of_bool = bool;
  as_text = as_text;
  is_array = λ j. false;
  get = get;
  as_bool = as_bool;
  to_hide = to_hide;
  to_accounts = to_accounts;
  to_texts = to_texts;
}

pub number-ReadBack : (n : ℕ) → ReadBack number n
number-ReadBack n bs h =
    subst (λ b. number.from_slice b ≡ some n) (ap (λ o. unwrap_or {A = Bytes} o []) h) refl
