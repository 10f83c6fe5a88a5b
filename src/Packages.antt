-- ===== src/Packages.antt =====
-- `PackageInfo` and `PackageIndex` of specifications/src/package.rs, with `Function`, `CallPattern`,
-- `Type` and `Property` of specifications/src/common.rs.
--
-- The time and the random id of a `PackageInfo` are left out: nothing reads them. A hash map is an
-- association list, in any order; a key of the index is the list of its characters' codes.
pub mod Keys
pub mod Lookup
pub mod Latest
pub mod Duplicates
mod Tests
use brane.Prelude.Codes.{codes}
use brane.Prelude.{
  ℕ, Bool, true, false, Option, none, some, String, List, [], ◌∷◌, ◌++◌, Ordering, Outcome, ok, err,
  ◌>>=◌, str_eq, if◌then◌else◌,
}
use brane.Value.{PackageKind, ecu, oas, dsl, cwl, Parameter, Value}
use brane.Version.{Version, cmp}
use brane.Version.Text.{Text, to_string, text_eq}

pub record CallPattern : Type 0 where
  pub infix' : Option (List String)
  pub postfix : Option String
  pub prefix : Option String

pub record Function : Type 0 where
  pub parameters : List Parameter
  pub pattern' : Option CallPattern
  pub return_type : String

mutual
  -- the type, the default value, the name, whether it is optional, the properties, whether it is secret
  pub data Property : Type 0 where
    property : String → Option Value → String → Option Bool → Properties → Option Bool → Property

  -- `Option<Vec<Property>>`
  pub data Properties : Type 0 where
    no_properties : Properties
    end : Properties
    more : Property → Properties → Properties

pub record PackageType : Type 0 where
  pub name : String
  pub properties : Properties

pub record PackageInfo : Type 0 where
  pub digest : Option String
  pub name : String
  pub version : Version
  pub kind : PackageKind
  pub owners : List String
  pub description : String
  pub detached : Bool
  pub functions : List (String × Function)
  pub types : List (String × PackageType)

-- `PackageInfo::new`: the digest is not known yet
unfoldable pub new_info :
    String
    → Version
    → PackageKind
    → List String
    → String
    → Bool
    → List (String × Function)
    → List (String × PackageType)
    → PackageInfo
new_info name version kind owners description detached functions types = record {
  digest = none;
  name = name;
  version = version;
  kind = kind;
  owners = owners;
  description = description;
  detached = detached;
  functions = functions;
  types = types;
}

-- `From<&PackageKind> for String`, and `FromStr` on a text in lower case
unfoldable pub kind_string : PackageKind → String
kind_string ecu = "ecu"
kind_string oas = "oas"
kind_string dsl = "dsl"
kind_string cwl = "cwl"

unfoldable pub kind_from_lowercase : String → Option PackageKind
kind_from_lowercase s =
    if str_eq s "ecu"
    then some ecu
    else if str_eq s "oas"
    then some oas
    else if str_eq s "dsl"
    then some dsl
    else if str_eq s "cwl"
    then some cwl
    else none

-- `format!("{}-{}", name, version)`
unfoldable pub key_of : String → Version → Text
unfolding codes to_string
key_of name version = codes name ++ (b'-' ∷ to_string version)

-- `get` of the two maps
unfoldable pub find_package : Text → List (Text × PackageInfo) → Option PackageInfo
find_package k [] = none
find_package k ((j, p) ∷ m) = if text_eq j k then some p else find_package k m

unfoldable pub find_latest : String → List (String × (Version × Text)) → Option (Version × Text)
find_latest name [] = none
find_latest name ((n, l) ∷ m) = if str_eq n name then some l else find_latest name m

pub record PackageIndex : Type 0 where
  pub packages : List (Text × PackageInfo)
  pub latest : List (String × (Version × Text))

-- `package.version >= latest_package.0`
abbrev pub ge : Version → Version → Bool
ge v w = elim (cmp v w) [ Ordering.lt ↦ false | _ ↦ true ]

abbrev pub set_latest :
    String → Version × Text → List (String × (Version × Text)) → List (String × (Version × Text))
set_latest name l [] = (name, l) ∷ []
set_latest name l ((n, k) ∷ m) = if str_eq n name then (n, l) ∷ m else (n, k) ∷ set_latest name l m

-- what the loop of `PackageIndex::new` does with a package
unfoldable pub note_latest :
    Text → PackageInfo → List (String × (Version × Text)) → List (String × (Version × Text))
unfolding find_latest cmp
note_latest key info latest = elim (find_latest info.name latest) [
  | none ↦ set_latest info.name (info.version, key) latest
  | some (version, k) ↦
      (if ge info.version version then set_latest info.name (info.version, key) latest else latest)
]

unfoldable pub latest_of :
    List (Text × PackageInfo) → List (String × (Version × Text)) → List (String × (Version × Text))
unfolding note_latest
latest_of [] latest = latest
latest_of ((key, info) ∷ packages) latest = latest_of packages (note_latest key info latest)

unfoldable pub new : List (Text × PackageInfo) → PackageIndex
unfolding latest_of
new packages = record { packages = packages; latest = latest_of packages [] }

-- `PackageIndexError::DuplicatePackage`: the name and the version
pub data PackageIndexError : Type 0 where
  duplicate_package : String → Version → PackageIndexError

-- the loop of `from_packages`
unfoldable pub keyed :
    List PackageInfo
    → List (Text × PackageInfo)
    → Outcome PackageIndexError (List (Text × PackageInfo))
unfolding key_of find_package
keyed [] packages = ok packages
keyed (info ∷ known_packages) packages =
    let key = key_of info.name info.version in
    let rest = keyed known_packages ((key, info) ∷ packages) in
    elim (find_package key packages) [
      | some _ ↦ err (duplicate_package info.name info.version)
      | none ↦ rest
    ]

unfoldable pub from_packages : List PackageInfo → Outcome PackageIndexError PackageIndex
unfolding keyed new
from_packages known_packages = keyed known_packages [] >>= λ packages. ok (new packages)

unfoldable pub get_latest_version : PackageIndex → String → Option Version
unfolding find_latest
get_latest_version index name = elim (find_latest name index.latest) [
  | none ↦ none
  | some (version, _) ↦ some version
]

unfoldable pub get : PackageIndex → String → Option Version → Option PackageInfo
unfolding get_latest_version key_of find_package
get index name (some version) = find_package (key_of name version) index.packages
get index name none = elim (get_latest_version index name) [
  | none ↦ none
  | some version ↦ find_package (key_of name version) index.packages
]
