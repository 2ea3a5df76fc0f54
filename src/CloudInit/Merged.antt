-- ===== src/CloudInit/Merged.antt =====
-- What stands in a cloud-init document.
use Prim.Native.String
use virtwork.Base.{
  String, true, false, Option, none, some, List, [], ◌∷◌, ◌++◌, Result, ok, err, ◌==◌, ◌≡◌, ◌≢◌,
  ◌↔◌, ◌⊎◌, refl, sym, ap, subst, ◌∙◌, In, Distinct, Bool-cases, inl, inr, eq_iff, ne→beq,
  if◌then◌else◌,
}
use virtwork.Base.Assoc.{Assoc, lookup, insert, keys, lookup-insert}
use virtwork.Workloads.Contract.{UserdataError, unknown_role, reserved_key, marshaling}
use virtwork.CloudInit.{
  CloudConfigOpts, DocValue, extra_value, flag_value, packages_value, files_value, commands_value,
  entry_of, users_of, own_document, is_there, first_reserved, copy_extra, print_config, after_check,
  build_cloud_config, reserved_keys,
}

module _ {X : Type 0} where
  -- the value of an entry of `Extra`, or another
  abbrev or_else : Option X → Option (DocValue X) → Option (DocValue X)
  or_else none v = v
  or_else (some x) v = some (extra_value x)

  lookup-absent : (k : String) (m : Assoc X) → (¬ In k (keys m)) → lookup k m ≡ none
  unfolding lookup
  lookup-absent k [] n = refl
  lookup-absent k ((j, x) ∷ m) n =
      rw (ne→beq k j (λ e. n (inl e))) (lookup-absent k m (λ i. n (inr i)))

  copy_extra-lookup :
      (extra : Assoc X) (doc : Assoc (DocValue X)) (k : String)
      → Distinct (keys extra)
      → lookup k (copy_extra extra doc) ≡ or_else (lookup k extra) (lookup k doc)
  unfolding copy_extra lookup
  copy_extra-lookup [] doc k d = refl
  copy_extra-lookup ((j, x) ∷ extra) doc k (n, d) =
      copy_extra-lookup extra (insert j (extra_value x) doc) k d
      ∙ ap (or_else (lookup k extra)) (lookup-insert k j (extra_value x) doc)
      ∙ elim (Bool-cases (k == j)) [
        | inl t ↦
            let same = (eq_iff k j).0 t in
            rw (t, lookup-absent k extra (λ i. n (rw (sym same) i))) refl
        | inr f ↦ rw f refl
      ]

  first_reserved-none :
      (ks : List String) (extra : Assoc X) (k : String)
      → first_reserved ks extra ≡ none
      → In k ks
      → lookup k extra ≡ none
  unfolding first_reserved
  first_reserved-none [] extra k h i = absurd i
  first_reserved-none (j ∷ ks) extra k h i =
      go (lookup j extra) refl h i (first_reserved-none ks extra k)
    where
      go :
          (o : Option X)
          → lookup j extra ≡ o
          → (if is_there o then some j else first_reserved ks extra) ≡ none
          → (k ≡ j) ⊎ In k ks
          → (first_reserved ks extra ≡ none → In k ks → lookup k extra ≡ none)
          → lookup k extra ≡ none
      go none e h (inl same) rest = rw same e
      go none e h (inr i) rest = rest h i
      go (some x) e h i rest = absurd (cc)

  first_reserved-some :
      (ks : List String) (extra : Assoc X) (k : String)
      → first_reserved ks extra ≡ some k
      → In k ks × ((x : X) × (lookup k extra ≡ some x))
  unfolding first_reserved
  first_reserved-some [] extra k h = absurd (cc)
  first_reserved-some (j ∷ ks) extra k h =
      go (lookup j extra) refl h (first_reserved-some ks extra k)
    where
      go :
          (o : Option X)
          → lookup j extra ≡ o
          → (if is_there o then some j else first_reserved ks extra) ≡ some k
          → (first_reserved ks extra ≡ some k → In k ks × ((x : X) × (lookup k extra ≡ some x)))
          → ((k ≡ j) ⊎ In k ks) × ((x : X) × (lookup k extra ≡ some x))
      go none e h rest = let (i, x) = rest h in (inr i, x)
      go (some x) e h rest =
          let same : j ≡ k = cc in
          (inl (sym same), (x, subst (λ l. lookup l extra ≡ some x) same e))

  -- a login with the password is allowed
  abbrev AllowsPassword : Assoc (DocValue X) → Type 0
  AllowsPassword doc = lookup "ssh_pwauth" doc ≡ some (flag_value true)

  -- What stands in the document: under a reserved key what the options give for it, under any other
  -- key the value of `Extra`; and a password login is allowed if both a user and a password are given.
  pub record IsMerged (opts : CloudConfigOpts X) (doc : Assoc (DocValue X)) : Type 0 where
    pub own : (k : String) → In k reserved_keys → lookup k doc ≡ lookup k (own_document opts)
    pub extras :
        (k : String) (x : X) → lookup k opts.extra ≡ some x → lookup k doc ≡ some (extra_value x)
    pub allows : AllowsPassword doc ↔ ((opts.ssh_user ≢ "") × (opts.ssh_password ≢ ""))

  pwauth-entry_of :
      {A : Type 0} (key : String) (value : List A → DocValue X) (xs : List A)
      (rest : Assoc (DocValue X))
      → ("ssh_pwauth" == key) ≡ false
      → lookup "ssh_pwauth" (entry_of key value xs ++ rest) ≡ lookup "ssh_pwauth" rest
  unfolding lookup
  pwauth-entry_of key value [] rest n = refl
  pwauth-entry_of key value (x ∷ xs) rest n = rw n refl

  pwauth-users_of :
      (opts : CloudConfigOpts X)
      → (lookup "ssh_pwauth" (users_of opts) ≡ some (flag_value true))
        ↔ ((opts.ssh_user ≢ "") × (opts.ssh_password ≢ ""))
  unfolding lookup
  pwauth-users_of opts = elim (Bool-cases (opts.ssh_user == "")) [
    | inl t ↦ rw t ((λ h. absurd (cc)), (λ (n, m). absurd (n ((eq_iff opts.ssh_user "").0 t))))
    | inr f ↦ elim (Bool-cases (opts.ssh_password == "")) [
      | inl t ↦
          rw (f, t) ((λ h. absurd (cc)), (λ (n, m). absurd (m ((eq_iff opts.ssh_password "").0 t))))
      | inr g ↦
          rw (f, g)
            (
              (λ h. (
                (λ e. let t = (eq_iff opts.ssh_user "").1 e in absurd (cc)),
                (λ e. let t = (eq_iff opts.ssh_password "").1 e in absurd (cc)),
              )),
              (λ h. refl),
            )
    ]
  ]

  copy_extra-IsMerged :
      (opts : CloudConfigOpts X)
      → Distinct (keys opts.extra)
      → first_reserved reserved_keys opts.extra ≡ none
      → IsMerged opts (copy_extra opts.extra (own_document opts))
  copy_extra-IsMerged opts d h = record {
    own = own;
    extras = λ k x e. copy_extra-lookup opts.extra (own_document opts) k d ∙ (rw e refl);
    allows =
        let e = own "ssh_pwauth" (inr (inr (inr (inr (inl refl))))) ∙ pwauth in
        let (to, from) = pwauth-users_of opts in ((λ p. to (sym e ∙ p)), (λ p. e ∙ from p));
  }
    where
      own :
          (k : String)
          → In k reserved_keys
          → lookup k (copy_extra opts.extra (own_document opts)) ≡ lookup k (own_document opts)
      own k i =
          copy_extra-lookup opts.extra (own_document opts) k d
          ∙ (rw (first_reserved-none reserved_keys opts.extra k h i) refl)

      pwauth : lookup "ssh_pwauth" (own_document opts) ≡ lookup "ssh_pwauth" (users_of opts)
      pwauth =
          pwauth-entry_of "packages" packages_value opts.packages _ refl
          ∙ pwauth-entry_of "write_files" files_value opts.write_files _ refl
          ∙ pwauth-entry_of "runcmd" commands_value opts.run_cmd _ refl

  module _ (marshal : Assoc (DocValue X) → Result String String) where
    -- the text of a document: the header, and what the YAML library prints for one that is not empty
    abbrev pub IsText : Assoc (DocValue X) → String → Type 0
    IsText [] text = text ≡ "#cloud-config\n"
    IsText (e ∷ doc) text =
        (yaml : String) × (marshal (e ∷ doc) ≡ ok yaml)
        × (text ≡ String.◌++◌ "#cloud-config\n" yaml)

    -- What each result says.
    abbrev pub CloudMeans : CloudConfigOpts X → Result UserdataError String → Type 0
    CloudMeans opts (ok text) = (doc : Assoc (DocValue X)) × IsMerged opts doc × IsText doc text
    CloudMeans opts (err (reserved_key key)) =
        In key reserved_keys × ((x : X) × (lookup key opts.extra ≡ some x))
    CloudMeans opts (err (marshaling e)) =
        (doc : Assoc (DocValue X)) × IsMerged opts doc × (marshal doc ≡ err e)
    CloudMeans opts (err (unknown_role role)) = ⊥

    print_config-CloudMeans :
        (opts : CloudConfigOpts X) (doc : Assoc (DocValue X)) (r : Result String String)
        → IsMerged opts doc
        → marshal doc ≡ r
        → CloudMeans opts (print_config marshal doc)
    unfolding print_config
    print_config-CloudMeans opts [] r m e = ([], m, refl)
    print_config-CloudMeans opts (x ∷ doc) (ok text) m e = rw e (x ∷ doc, m, (text, e, refl))
    print_config-CloudMeans opts (x ∷ doc) (err f) m e = rw e (x ∷ doc, m, e)

    after_check-CloudMeans :
        (opts : CloudConfigOpts X) (o : Option String)
        → Distinct (keys opts.extra)
        → first_reserved reserved_keys opts.extra ≡ o
        → CloudMeans opts (after_check marshal o opts)
    unfolding after_check
    after_check-CloudMeans opts (some key) d h = first_reserved-some reserved_keys opts.extra key h
    after_check-CloudMeans opts none d h =
        print_config-CloudMeans opts _ _ (copy_extra-IsMerged opts d h) refl

    -- BuildCloudConfig returns the header and the print of a document in which each reserved key has
    -- what the options give for it and each key of `Extra` has its value, and which allows a login
    -- with a password if both a user and a password are given, and not otherwise. An error names a
    -- reserved key that `Extra` has, or is the YAML library's for such a document. The keys of `Extra`
    -- are distinct, as those of a map are.
    pub build_cloud_config-CloudMeans :
        (opts : CloudConfigOpts X)
        → Distinct (keys opts.extra)
        → CloudMeans opts (build_cloud_config marshal opts)
    unfolding build_cloud_config
    build_cloud_config-CloudMeans opts d = after_check-CloudMeans opts _ d refl
