-- ===== src/Node/Runtime.antt =====
-- pkg/runtime/config.go and pkg/runtime/install.go: the runtime artifact that a node installs. The
-- texts of the install commands are parameters.
use public_cloud_vm_provisio.Prelude.{
  String, ◌≡◌, refl, Bool, true, false, not, List, [], arith, if◌then◌else◌, is_empty, append,
}

pub record Config : Type 0 where
  pub enabled : Bool
  pub registry : String
  pub repository : String
  pub version : String
  pub oras_version : String
  pub username : String
  pub token : String

abbrev or_default : String → String → String
or_default old new = if is_empty old then new else old

-- `ApplyDefaults`
unfoldable pub apply_defaults : Config → Config
unfolding is_empty
apply_defaults c = if not c.enabled then c else record c {
  registry = or_default c.registry "ghcr.io";
  repository = or_default c.repository "vitu-mafeni/cnlab-runtime";
  version = or_default c.version "1.0.0-beta";
  oras_version = or_default c.oras_version "1.3.2";
}

-- `ImageRef`
unfoldable pub image_ref : Config → String
unfolding append
image_ref c = append c.registry (append "/" (append c.repository (append ":" c.version)))

-- `InstallSteps`, over the texts of its commands
unfoldable pub install_steps : (Config → List String) → Config → List String
unfolding apply_defaults
install_steps commands c = if not c.enabled then [] else commands (apply_defaults c)

-- The fields that are still empty once the defaults are in
abbrev pub IsFilled : Config → Type 0
IsFilled c =
    (is_empty c.registry ≡ false)
    × (is_empty c.repository ≡ false)
    × (is_empty c.version ≡ false)
    × (is_empty c.oras_version ≡ false)

or_default-full : (old new : String) → is_empty new ≡ false → is_empty (or_default old new) ≡ false
unfolding is_empty
or_default-full String.[] new h = h
or_default-full (String.◌∷◌ c s) new h = refl

same-if : (b : Bool) (s : String) → (if b then s else s) ≡ s
same-if true s = refl
same-if false s = refl

or_default-twice : (old new : String) → or_default (or_default old new) new ≡ or_default old new
unfolding is_empty
or_default-twice String.[] new = same-if (is_empty new) new
or_default-twice (String.◌∷◌ c s) new = refl

abbrev config : Bool → String → String → String → String → String → String → Config
config enabled registry repository version oras_version username token = record {
  enabled = enabled;
  registry = registry;
  repository = repository;
  version = version;
  oras_version = oras_version;
  username = username;
  token = token;
}

config-idempotent :
    (enabled : Bool) (r p v o u t : String)
    → let c = config enabled r p v o u t in
      ((enabled ≡ true) → IsFilled (apply_defaults c))
      × (apply_defaults (apply_defaults c) ≡ apply_defaults c)
unfolding apply_defaults is_empty
config-idempotent false r p v o u t = ((λ h. ground arith), refl)
config-idempotent true r p v o u t = (
  (λ h. (
    or_default-full r "ghcr.io" refl,
    or_default-full p "vitu-mafeni/cnlab-runtime" refl,
    or_default-full v "1.0.0-beta" refl,
    or_default-full o "1.3.2" refl,
  )),
  rw (
    or_default-twice r "ghcr.io",
    or_default-twice p "vitu-mafeni/cnlab-runtime",
    or_default-twice v "1.0.0-beta",
    or_default-twice o "1.3.2",
  ),
)

-- With the defaults in, the configuration of an enabled runtime has a full reference, and the
-- defaults change nothing any more.
pub apply_defaults-idempotent :
    (c : Config)
    → ((c.enabled ≡ true) → IsFilled (apply_defaults c))
      × (apply_defaults (apply_defaults c) ≡ apply_defaults c)
apply_defaults-idempotent c =
    config-idempotent c.enabled c.registry c.repository c.version c.oras_version c.username c.token
