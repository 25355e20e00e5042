-- ===== src/Delivery/Files.antt =====
-- certman/delivery/filesystem.py, and what the adapters share: the files written, the commands run,
-- and the exceptions, as texts.
pub mod Laws
use certman.Base.{
  String, Option, none, some, List, [], ◌∷◌, ◌++◌, Exec, Result, ok, err, pure, ◌>>=◌, ◌>>◌,
}
use certman.Delivery.K8s.{Command}

-- The files of a bundle, in the order of the dict.
abbrev pub Files : Type 0
Files = List (String × String)

-- What a delivery has done so far: the files written and the kubectl commands run, each in order.
pub record Site : Type 0 where
  pub written : List (String × String)
  pub commands : List Command

-- The machine: `target_dir / name`, and the text of the exception when a path cannot be written.
pub record Machine : Type 0 where
  pub join_path : String → String → String
  pub denied : String → Option String

module _ (m : Machine) where
  unfoldable pub write_text : String → String → Exec Site String (Unit {0})
  write_text path content s = elim (m.denied path) [
    | some text ↦ (err text, s)
    | none ↦ (ok tt, record s { written = s.written ++ (path, content) ∷ [] })
  ]

  unfoldable pub deliver_filesystem_bundle : Files → String → Exec Site String (List String)
  unfolding write_text
  deliver_filesystem_bundle [] target_dir = pure []
  deliver_filesystem_bundle ((name, content) ∷ files) target_dir = do
    let path = m.join_path target_dir name
    write_text path content
    written ← deliver_filesystem_bundle files target_dir
    pure (path ∷ written)
