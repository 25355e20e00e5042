-- ===== src/Delivery/Ingress/Total.antt =====
-- The whole of a delivery to a Kubernetes ingress: the files, the manifest and what follows.
use certman.Base.{
  String, ◌≡◌, refl, ◌⊎◌, inl, inr, Option, none, some, List, [], ◌∷◌, ◌++◌, Result, ok, err,
  Option-cases, arith,
}
use certman.Delivery.K8s.{Command}
use certman.Delivery.Files.{Files, Site, Machine, write_text, deliver_filesystem_bundle}
use certman.Delivery.Files.Laws.{paths, located, wrote, IsWritable, IsPart, deliver_filesystem_lem}
use certman.Delivery.Ingress.{
  Finished, IngressOptions, get_file, or_else, tls_manifest, manage_secret, with_manifest,
  deliver_k8s_ingress_bundle,
}
use certman.Delivery.Ingress.Laws.{ManageEnd, manage_secret_lem}

abbrev pub certificate_of : Files → Option String
certificate_of files = or_else (get_file "fullchain.pem" files) (get_file "cert.pem" files)

module _ (m : Machine) (kubectl : List Command → Command → Result String Finished)
    (o : IngressOptions) (target_dir : String) where
  abbrev pub manifest_path : String
  manifest_path = m.join_path target_dir "k8s-tls-secret.yaml"

  abbrev pub with_files : Files → Site → Site
  with_files files s = wrote m target_dir s (located m target_dir files)

  abbrev pub with_secret : String → String → Site → Site
  with_secret crt key s =
      wrote m target_dir s ((manifest_path, tls_manifest o.secret_name o.namespace crt key) ∷ [])

  pub data ManifestEnd (files : Files) (written : List String) (s : Site)
      (out : Result String (List String) × Site) : Type 0 where
    no_pair :
        (certificate_of files ≡ none) ⊎ (get_file "privkey.pem" files ≡ none)
        → out ≡ (ok written, s)
        → ManifestEnd files written s out
    is_denied :
        {text : String}
        → m.denied manifest_path ≡ some text
        → out ≡ (err text, s)
        → ManifestEnd files written s out
    has_manifest :
        {crt key : String}
        → certificate_of files ≡ some crt
        → get_file "privkey.pem" files ≡ some key
        → ManageEnd m kubectl o (written ++ manifest_path ∷ []) (with_secret crt key s) out
        → ManifestEnd files written s out

  module _ (written : List String) (s : Site) (crt key : String) where
    abbrev step : Result String (List String) × Site
    step = with_manifest m kubectl o target_dir written (some crt) (some key) s

    manifest_stuck : (text : String) → m.denied manifest_path ≡ some text → step ≡ (err text, s)
    unfolding with_manifest write_text
    manifest_stuck text h = ground arith

    manifest_written :
        m.denied manifest_path ≡ none
        → step ≡ manage_secret m kubectl o (written ++ manifest_path ∷ []) (with_secret crt key s)
    unfolding with_manifest write_text
    manifest_written h = ground arith

  with_manifest_lem :
      (files : Files) (written : List String) (s : Site) (crt key : Option String)
      → certificate_of files ≡ crt
      → get_file "privkey.pem" files ≡ key
      → ManifestEnd files written s (with_manifest m kubectl o target_dir written crt key s)
  unfolding with_manifest
  with_manifest_lem files written s none key h k = no_pair (inl h) refl
  with_manifest_lem files written s (some crt) none h k = no_pair (inr k) refl
  with_manifest_lem files written s (some crt) (some key) h k =
      elim (Option-cases (m.denied manifest_path)) [
        | inr (text, d) ↦ is_denied d (manifest_stuck written s crt key text d)
        | inl d ↦
            has_manifest h k
              (rw (manifest_written written s crt key d) (manage_secret_lem m kubectl o _ _))
      ]

  deliver_step :
      (files : Files) (s s' : Site) (written : List String)
      → deliver_filesystem_bundle m files target_dir s ≡ (ok written, s')
      → deliver_k8s_ingress_bundle m kubectl o files target_dir s
        ≡ with_manifest m kubectl o target_dir written
            (certificate_of files)
            (get_file "privkey.pem" files)
            s'
  unfolding deliver_k8s_ingress_bundle
  deliver_step files s s' written h = ground arith

  deliver_stuck :
      (files : Files) (s s' : Site) (text : String)
      → deliver_filesystem_bundle m files target_dir s ≡ (err text, s')
      → deliver_k8s_ingress_bundle m kubectl o files target_dir s ≡ (err text, s')
  unfolding deliver_k8s_ingress_bundle
  deliver_stuck files s s' text h = ground arith

  -- A delivery to an ingress stops at the first file that cannot be written. Otherwise all files were
  -- written, and it ends there unless there are a certificate and a key; then the manifest is written
  -- and only rendered, refused for its mode, or applied. It returns only if the apply has succeeded;
  -- after one that failed, the secret fetched before is applied if there was one and rolling back is on.
  pub deliver_k8s_ingress_lem :
      (files : Files) (s : Site)
      → IsPart m target_dir files s (deliver_k8s_ingress_bundle m kubectl o files target_dir s)
        ⊎ (IsWritable m target_dir files
            × ManifestEnd files
                (paths m target_dir files)
                (with_files files s)
                (deliver_k8s_ingress_bundle m kubectl o files target_dir s))
  deliver_k8s_ingress_lem files s = elim (deliver_filesystem_lem m target_dir files s) [
    | inl (w, e) ↦
        inr (w, rw (deliver_step files s _ _ e) (with_manifest_lem files _ _ _ _ refl refl))
    | inr (before, f, after, text, q, w, d, e) ↦
        inl (before, f, after, text, q, w, d, deliver_stuck files s _ text e)
  ]
