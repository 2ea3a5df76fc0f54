-- ===== src/Kube/Client.antt =====
-- The controller-runtime client, which is a library's: an interface over a world `W` that stands
-- for the cluster, the network and the clock. Each call may change the world and may fail.
use virtwork.Base.{
  String, Bool, false, ◌≡◌, Option, none, some, List, All, In, Result, ok, err, ◌==◌, if◌then◌else◌,
}
use virtwork.Base.Assoc.{lookup}
use virtwork.Kube.{Labels, VirtualMachine, Service, Secret, ApiError, not_found, already_exists}

pub data Kind : Type 0 where
  virtual_machine service secret data_volume persistent_volume_claim namespace : Kind

-- the metadata of a listed object
pub record Meta : Type 0 where
  pub name : String
  pub namespace : String
  pub labels : Labels

-- What `Create` is called with.
pub data Object : Type 0 where
  a_vm : VirtualMachine → Object
  a_service : Service → Object
  a_secret : Secret → Object
  a_namespace : String → Labels → Object

pub record Client (W : Type 0) : Type 0 where
  -- `List` with `InNamespace` and `MatchingLabels`
  pub list : Kind → String → Labels → W → Result ApiError (List Meta) × W
  -- `Delete` of an object by its kind, namespace and name, and whether it is a dry run
  pub delete : Kind → String → String → Bool → W → Option ApiError × W
  pub create : Object → W → Option ApiError × W
  -- `Get` of a namespace's labels, and `Patch` of the namespace with `MergeFrom`: by its name, the
  -- labels of the copy that was kept as the base, and the labels as they were changed
  pub get_namespace : String → W → Result ApiError Labels × W
  pub patch_namespace : String → (base modified : Labels) → W → Option ApiError × W
  -- `Get` of the phase of a VirtualMachineInstance, by name and namespace
  pub get_phase : String → String → W → Result ApiError String × W

-- An object's labels agree with each pair of the selector.
abbrev pub Matches : Labels → Labels → Type 0
Matches selector labels = All (λ e. lookup (e.0) labels ≡ some (e.1)) selector

-- The listed objects lie in the namespace and carry the labels.
abbrev pub AreSelected : String → Labels → Result ApiError (List Meta) → Type 0
AreSelected ns selector (ok items) =
    All (λ (m : Meta). (m.namespace ≡ ns) × Matches selector m.labels) items
AreSelected ns selector (err e) = Unit

-- What the API promises of `List`: it returns only what the options select.
pub record ListsSelected {W : Type 0} (client : Client W) : Type 0 where
  pub selected :
      (k : Kind) (ns : String) (selector : Labels) (w : W)
      → AreSelected ns selector (client.list k ns selector w).0

-- The outcome of a deletion that is accepted, or that does not find the object.
abbrev pub IsGone : Option ApiError → Type 0
IsGone none = Unit
IsGone (some not_found) = Unit
IsGone (some e) = ⊥

-- What the API promises of the objects that a selector finds in a namespace: a list shows them, and
-- changes nothing.
pub record ListsFound {W : Type 0} (client : Client W) (ns : String) (selector : Labels)
    : Type 0 where
  pub found : Kind → W → List Meta
  pub shows :
      (k : Kind) (w : W) (items : List Meta)
      → (client.list k ns selector w).0 ≡ ok items
      → items ≡ found k w
  pub keeps : (j k : Kind) (w : W) → found j (client.list k ns selector w).1 ≡ found j w

-- What the API promises of the deletion of objects that a selector finds in a namespace: `live` says
-- which of them are there and not being deleted, that is, have no deletion timestamp. A list shows
-- at least these and changes nothing. A deletion makes none live. One that is accepted, or that does
-- not find the object, leaves it without life: it is gone, or it has a timestamp and waits for its
-- finalizers.
pub record DeletesSelected {W : Type 0} (client : Client W) (ns : String) (selector : Labels)
    : Type 0 where
  pub live : Kind → W → List Meta
  pub shows :
      (k : Kind) (w : W) (items : List Meta)
      → (client.list k ns selector w).0 ≡ ok items
      → (x : Meta) → In x (live k w)
      → In x items
  pub keeps : (j k : Kind) (w : W) → live j (client.list k ns selector w).1 ≡ live j w
  pub shrinks :
      (j k : Kind) (in_ns name : String) (dry : Bool) (w : W) (x : Meta)
      → In x (live j (client.delete k in_ns name dry w).1)
      → In x (live j w)
  pub ends :
      (k : Kind) (m : Meta) (w : W)
      → IsGone (client.delete k m.namespace m.name false w).0
      → ¬ In m (live k (client.delete k m.namespace m.name false w).1)

-- The value of a label after a merge patch, from its values in the base, in what was changed and in
-- the object: only what differs between the first two is in the patch.
abbrev pub merged : (base modified current : Option String) → Option String
merged none none current = current
merged none (some v) current = some v
merged (some u) none current = none
merged (some u) (some v) current = if u == v then current else some v

-- What the API promises of the labels of the namespace `name`: `Create` gives it its labels, or
-- leaves it as it is if it exists; `Get` reads them; and `Patch` merges.
pub record LabelsNamespace {W : Type 0} (client : Client W) (name : String) : Type 0 where
  pub label : String → W → Option String
  pub makes :
      (labels : Labels) (w : W)
      → (client.create (a_namespace name labels) w).0 ≡ none
      → (k : String) → label k (client.create (a_namespace name labels) w).1 ≡ lookup k labels
  pub refuses :
      (labels : Labels) (w : W)
      → (client.create (a_namespace name labels) w).0 ≡ some already_exists
      → (k : String) → label k (client.create (a_namespace name labels) w).1 ≡ label k w
  pub reads :
      (labels : Labels) (w : W)
      → (client.get_namespace name w).0 ≡ ok labels
      → (k : String)
      → (label k w ≡ lookup k labels) × (label k (client.get_namespace name w).1 ≡ label k w)
  pub merges :
      (base modified : Labels) (w : W)
      → (client.patch_namespace name base modified w).0 ≡ none
      → (k : String)
      → label k (client.patch_namespace name base modified w).1
        ≡ merged (lookup k base) (lookup k modified) (label k w)
