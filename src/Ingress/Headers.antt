-- ===== src/Ingress/Headers.antt =====
-- The interface of http::HeaderMap that src/ingress.rs uses, for names in lowercase, and what its
-- documentation says.
use openworkers_runner.Common.{
  List, Option, String, [], arith, get_or, if◌then◌else◌, nat_eq, none, option_eq, some, string_eq,
  ◌==◌, ◌∷◌, ◌≡◌,
}
use openworkers_runner.Common.Maps.{Map, lookup-insert, lookup-remove}
use openworkers_runner.Common.Maps

pub record HeaderMap : Type 1 where
  pub Store : Type 0
  pub get_all : String → Store → List String
  pub insert : String → String → Store → Store
  pub remove : String → Store → Store

-- `insert` replaces every value of the name, and `remove` takes every one out.
pub record HeaderLaws (map : HeaderMap) : Type 0 where
  pub get_insert :
      (name other value : String) (s : map.Store)
      → map.get_all other (map.insert name value s)
        ≡ (if name == other then value ∷ [] else map.get_all other s)
  pub get_remove :
      (name other : String) (s : map.Store)
      → map.get_all other (map.remove name s) ≡ (if name == other then [] else map.get_all other s)

-- `get`: the first value of the name.
abbrev pub first {ℓ} : {A : Type ℓ} → List A → Option A
first [] = none
first (value ∷ rest) = some value

-- Lists of values under each name fill the interface.
abbrev pub value_lists : HeaderMap
value_lists = record {
  Store = Map String (List String);
  get_all = λ name s. get_or (Maps.lookup name s) [];
  insert = λ name value s. Maps.insert name (value ∷ []) s;
  remove = λ name s. Maps.remove name s;
}

pub value_lists-HeaderLaws : HeaderLaws value_lists
value_lists-HeaderLaws = record {
  get_insert = λ name other value s. ground (arith, lookup-insert name other (value ∷ []) s);
  get_remove = λ name other s. ground (arith, lookup-remove name other s);
}
