-- ===== src/CloudInit.antt =====
-- internal/cloudinit/cloudinit.go: the cloud-init documents of the VMs.
pub mod Merged
use Prim.Native.String
use virtwork.Base.{
  String, Bool, true, false, Option, none, some, List, [], ◌∷◌, ◌++◌, Result, ok, err, ◌==◌,
  if◌then◌else◌,
}
use virtwork.Base.Assoc.{Assoc, lookup, insert}
use virtwork.Workloads.Contract.{UserdataError, reserved_key, marshaling}

pub record WriteFile : Type 0 where
  pub path : String
  pub content : String
  pub permissions : String

-- A value of the user's block.
pub data UserValue : Type 0 where
  user_text : String → UserValue
  user_flag : Bool → UserValue
  user_texts : List String → UserValue

-- A value of the document; those of `Extra` are of any type.
pub data DocValue (X : Type 0) : Type 0 where
  packages_value : List String → DocValue X
  files_value : List WriteFile → DocValue X
  commands_value : List (List String) → DocValue X
  users_value : List (Assoc UserValue) → DocValue X
  flag_value : Bool → DocValue X
  extra_value : X → DocValue X

pub record CloudConfigOpts (X : Type 0) : Type 0 where
  pub packages : List String
  pub write_files : List WriteFile
  pub run_cmd : List (List String)
  pub extra : Assoc X
  pub ssh_user : String
  pub ssh_password : String
  pub ssh_authorized_keys : List String

abbrev pub ssh_sudo_rule : String
ssh_sudo_rule = "ALL=(ALL) NOPASSWD:ALL"

abbrev pub ssh_default_shell : String
ssh_default_shell = "/bin/bash"

abbrev pub reserved_keys : List String
reserved_keys = "packages" ∷ "write_files" ∷ "runcmd" ∷ "users" ∷ "ssh_pwauth" ∷ []

-- an entry of a map for a list that is not empty
abbrev pub entry_of {ℓ} : {A : Type ℓ} {V : Type 0} → String → (List A → V) → List A → Assoc V
entry_of key value [] = []
entry_of key value (x ∷ xs) = (key, value (x ∷ xs)) ∷ []

-- the entries that depend on the password
abbrev pub password_block : String → Assoc UserValue
password_block password =
    if password == ""
    then ("lock_passwd", user_flag true) ∷ []
    else ("lock_passwd", user_flag false) ∷ ("plain_text_passwd", user_text password) ∷ []

module _ {X : Type 0} where
  abbrev pub user_block : CloudConfigOpts X → Assoc UserValue
  user_block opts =
      (("name", user_text opts.ssh_user)
        ∷ ("sudo", user_text ssh_sudo_rule)
        ∷ ("shell", user_text ssh_default_shell)
        ∷ [])
      ++ (password_block opts.ssh_password
          ++ entry_of "ssh_authorized_keys" user_texts opts.ssh_authorized_keys)

  abbrev pub users_of : CloudConfigOpts X → Assoc (DocValue X)
  users_of opts =
      if opts.ssh_user == ""
      then []
      else if opts.ssh_password == ""
      then ("users", users_value (user_block opts ∷ [])) ∷ []
      else ("users", users_value (user_block opts ∷ [])) ∷ ("ssh_pwauth", flag_value true) ∷ []

  -- the document before `Extra` is merged
  abbrev pub own_document : CloudConfigOpts X → Assoc (DocValue X)
  own_document opts =
      entry_of "packages" packages_value opts.packages
      ++ (entry_of "write_files" files_value opts.write_files
          ++ (entry_of "runcmd" commands_value opts.run_cmd ++ users_of opts))

  abbrev pub is_there : Option X → Bool
  is_there none = false
  is_there (some x) = true

  -- the loop over the reserved keys
  unfoldable pub first_reserved : List String → Assoc X → Option String
  first_reserved [] extra = none
  first_reserved (key ∷ keys) extra =
      if is_there (lookup key extra) then some key else first_reserved keys extra

  -- `maps.Copy(doc, opts.Extra)`
  unfoldable pub copy_extra : Assoc X → Assoc (DocValue X) → Assoc (DocValue X)
  copy_extra [] doc = doc
  copy_extra ((key, x) ∷ extra) doc = copy_extra extra (insert key (extra_value x) doc)

  module _ (marshal : Assoc (DocValue X) → Result String String) where
    -- what follows on `Marshal`
    abbrev pub with_header : Result String String → Result UserdataError String
    with_header (err e) = err (marshaling e)
    with_header (ok text) = ok (String.◌++◌ "#cloud-config\n" text)

    unfoldable pub print_config : Assoc (DocValue X) → Result UserdataError String
    print_config [] = ok "#cloud-config\n"
    print_config (e ∷ doc) = with_header (marshal (e ∷ doc))

    -- what follows on the check of the reserved keys
    unfoldable pub after_check : Option String → CloudConfigOpts X → Result UserdataError String
    after_check (some key) opts = err (reserved_key key)
    after_check none opts = print_config (copy_extra opts.extra (own_document opts))

    unfoldable pub build_cloud_config : CloudConfigOpts X → Result UserdataError String
    build_cloud_config opts = after_check (first_reserved reserved_keys opts.extra) opts
