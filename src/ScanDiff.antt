-- ===== src/ScanDiff.antt =====
-- recon/modules/active/scan_diff.py: the difference of a run's signatures and those of the last
-- completed run. A set of signatures is a sorted list without repetitions.
pub mod Delta
pub mod Build
pub mod Findings
mod Tests
use recon_platform.Prelude.{
  ℕ, ◌==◌, Bool, true, false, ◌&&◌, not, Option, none, some, List, [], ◌∷◌, ◌++◌, length, keep, map,
  if◌then◌else◌,
}
use recon_platform.Prelude.Text.{Text, text, text_eq, is_empty, elem, split}

-- What a service's evidence says of it; an empty text is a key that is missing.
pub record ServiceData : Type 0 where
  pub product : Text
  pub version : Text
  pub name : Text

-- `_service_signature`
unfoldable pub service_signature : ServiceData → Text → Text → Text
service_signature raw host port =
    let sig = text "service:" ++ host ++ text ":" ++ port in
    if not (is_empty raw.product) && not (is_empty raw.version)
    then sig ++ text ":" ++ raw.product ++ text "/" ++ raw.version
    else if not (is_empty raw.product)
    then sig ++ text ":" ++ raw.product
    else if not (is_empty raw.name)
    then sig ++ text ":" ++ raw.name
    else sig

key_of : List Text → Option Text
key_of (kind ∷ host ∷ port ∷ _) =
    if text_eq kind (text "service")
    then some (kind ++ text ":" ++ host ++ text ":" ++ port)
    else none
key_of _ = none

-- `_service_key`
unfoldable pub service_key : Text → Option Text
unfolding key_of split
service_key sig = key_of (split b':' sig)

abbrev pub key_is : Text → Text → Bool
key_is key sig = elim (service_key sig) [ none ↦ false | some k ↦ text_eq k key ]

pub record Change : Type 0 where
  pub signature : Text
  pub was : Text
  pub now : Text

-- The pair of a key, if it has one signature on either side.
abbrev pair : Text → List Text → List Text → List Change
pair key (now ∷ []) (was ∷ []) = record { signature = key; was = was; now = now } ∷ []
pair key _ _ = []

-- The change that a new signature is part of.
abbrev change_of : List Text → List Text → Text → Option Text → List Change
change_of added removed sig none = []
change_of added removed sig (some key) =
    pair key (keep (key_is key) added) (keep (key_is key) removed)

-- `_pair_changes`, by the new signatures in turn: a key with a pair has one of them.
changes_from : List Text → List Text → List Text → List Change
changes_from added removed [] = []
changes_from added removed (sig ∷ sigs) =
    change_of added removed sig (service_key sig) ++ changes_from added removed sigs

unfoldable pub pair_changes : List Text → List Text → List Change
unfolding changes_from
pair_changes added removed = changes_from added removed added

pub record ScanDelta : Type 0 where
  pub added : List Text
  pub removed : List Text
  pub changed : List Change

abbrev pub minus : List Text → List Text → List Text
minus xs ys = keep (λ s. not (elem s ys)) xs

-- `run`, from the two sets to the delta that is written.
unfoldable pub diff : List Text → List Text → ScanDelta
unfolding pair_changes elem
diff old cur =
    let changed = pair_changes (minus cur old) (minus old cur) in
    record {
      added = minus (minus cur old) (map (λ c. c.now) changed);
      removed = minus (minus old cur) (map (λ c. c.was) changed);
      changed = changed;
    }
