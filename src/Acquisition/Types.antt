-- ===== src/Acquisition/Types.antt =====
-- internal/acquisition/acquisition.go and internal/provider/types.go: the data of the provisioning
-- and destruction workflows, and the comparison of two provisioning operations.
use Prim.Native.String.{String}
use schooner.Prelude.{
  ℕ, Bool, true, false, ◌&&◌, List, [], ◌∷◌, Option, none, some, ◌==◌, string_eq, if◌then◌else◌,
}
use schooner.Box.Types.{Error, new_error}

pub record PublicKey : Type 0 where
  pub name : String
  pub fingerprint : String
  pub public_key : String

pub record ResourceRef : Type 0 where
  pub provider : String
  pub resource_id : String
  pub correlation_id : String
  pub profile : String

pub record ProvisionedMachine : Type 0 where
  pub resource_id : String
  pub public_ipv4 : String
  pub ssh_username : String
  pub warning : String

pub record Resource : Type 0 where
  pub id : String
  pub name : String
  pub correlation_id : String

abbrev pub digital_ocean : String
digital_ocean = "digitalocean"

-- `ResourceRef.Validate`: whether the reference is complete.
unfoldable pub is_complete : ResourceRef → Bool
is_complete r =
    if r.provider == ""
    then false
    else if r.resource_id == ""
    then false
    else if r.correlation_id == ""
    then false
    else if r.profile == ""
    then false
    else true

pub record ProvisionOperation : Type 0 where
  pub name : String
  pub correlation_id : String
  pub profile : String
  pub region : String
  pub size : String
  pub image : String
  pub network_id : String
  pub access_key_ids : List String
  pub local_public_keys : List PublicKey
  pub automatic_backups : Bool
  pub ipv6 : Bool
  pub worktree_root : String
  pub resource_id : String
  pub ssh_destination : String
  pub identity_file : String
  pub checkpoint : String
  pub warning : String
  pub updated_at : ℕ

pub record DestroyOperation : Type 0 where
  pub box_id : String
  pub name : String
  pub resource : ResourceRef
  pub checkpoint : String
  pub updated_at : ℕ

abbrev pub same_bool : Bool → Bool → Bool
same_bool true b = b
same_bool false true = false
same_bool false false = true

abbrev pub same_key : PublicKey → PublicKey → Bool
same_key a b = a.name == b.name && a.fingerprint == b.fingerprint && a.public_key == b.public_key

-- `slices.Equal`
unfoldable pub same_items : {A : Type 0} → (A → A → Bool) → List A → List A → Bool
same_items same [] [] = true
same_items same [] (y ∷ ys) = false
same_items same (x ∷ xs) [] = false
same_items same (x ∷ xs) (y ∷ ys) = same x y && same_items same xs ys

unfoldable pub same_operation : ProvisionOperation → ProvisionOperation → Bool
unfolding same_items
same_operation a b =
    a.name == b.name
    && a.profile == b.profile
    && a.region == b.region
    && a.size == b.size
    && a.image == b.image
    && a.network_id == b.network_id
    && same_items ◌==◌ a.access_key_ids b.access_key_ids
    && same_items same_key a.local_public_keys b.local_public_keys
    && same_bool a.automatic_backups b.automatic_backups
    && same_bool a.ipv6 b.ipv6
    && a.worktree_root == b.worktree_root

-- `ConflictForOperation`: `none` if the operations select the same machine.
unfoldable pub conflict_for_operation : ProvisionOperation → ProvisionOperation → Option Error
unfolding same_operation
conflict_for_operation existing requested =
    if same_operation existing requested
    then none
    else some (
        new_error "conflict"
          "an interrupted DigitalOcean add for %q uses different provisioning selections")
