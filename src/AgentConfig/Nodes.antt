-- ===== src/AgentConfig/Nodes.antt =====
-- A file system of single nodes, for the tests.
use runlane.Prelude.{
  ℕ, ◌≡◌, refl, sym, ap, ◌∙◌, String, Bool, true, false, not, Option, none, some, ◌==◌, eq_iff,
  Result, ok, err, if◌then◌else◌,
}
use runlane.AgentConfig.Files.{Metadata, FileSystem}
use runlane.AgentConfig.Written.{Faithful}

pub record Node : Type 0 where
  pub text : String
  pub mode : ℕ
  pub directory : Bool

abbrev pub World : Type 0
World = String → Option Node

abbrev pub alter : String → (Option Node → Option Node) → World → World
alter path f world p = if p == path then f (world p) else world p

abbrev pub with_text : String → Option Node → Option Node
with_text text none = none
with_text text (some node) = some (record node { text = text })

abbrev pub with_mode : ℕ → Option Node → Option Node
with_mode mode none = none
with_mode mode (some node) = some (record node { mode = mode })

abbrev pub opened : ℕ → Option Node → Option Node
opened mode _ = some (record { text = ""; mode = mode; directory = false })

abbrev pub made_directory : Option Node → Option Node
made_directory none = some (record { text = ""; mode = 0o755; directory = true })
made_directory (some node) = some node

abbrev metadata_of : Option Node → Result String Metadata
metadata_of none = err "no such file"
metadata_of (some node) =
    ok (record { is_file = not node.directory; is_dir = node.directory; st_mode = node.mode })

abbrev text_of : Option Node → Result String String
text_of none = err "no such file"
text_of (some node) = ok node.text

abbrev is_some_node : Option Node → Bool
is_some_node none = false
is_some_node (some _) = true

abbrev pub nodes : FileSystem World
nodes = record {
  metadata = λ path w. metadata_of (w path);
  read_to_string = λ path w. text_of (w path);
  exists = λ path w. is_some_node (w path);
  parent = λ path. none;
  create_dir_all = λ path w. (ok tt, alter path made_directory w);
  set_permissions = λ path mode w. (ok tt, alter path (with_mode mode) w);
  open_file = λ path force mode w. (ok tt, alter path (opened mode) w);
  write_all = λ path text w. (ok tt, alter path (with_text text) w);
  sync_all = λ path w. (ok tt, w);
}

alter-same :
    (path : String) (f : Option Node → Option Node) (w : World) → alter path f w path ≡ f (w path)
alter-same path f w = rw ((eq_iff path path).1 refl) refl

written-node :
    (path text : String) (w : World)
    → alter path (with_mode 0o600) (alter path (with_text text) (alter path (opened 0o600) w)) path
      ≡ some (record { text = text; mode = 0o600; directory = false })
written-node path text w =
    alter-same path (with_mode 0o600) (alter path (with_text text) (alter path (opened 0o600) w))
    ∙ ap (with_mode 0o600) (
        alter-same path (with_text text) (alter path (opened 0o600) w)
        ∙ ap (with_text text) (alter-same path (opened 0o600) w))

pub nodes-Faithful : Faithful nodes
nodes-Faithful = record {
  keeps = λ path text force w0 w1 w2 w3 w4 opens writes syncs sets.
      let e1 = ap (λ done. done.1) opens in
      let e2 = ap (alter path (with_text text)) e1 ∙ ap (λ done. done.1) writes in
      let e3 = e2 ∙ ap (λ done. done.1) syncs in
      let e4 = ap (alter path (with_mode 0o600)) e3 ∙ ap (λ done. done.1) sets in
      let node = ap (λ w. w path) (sym e4) ∙ written-node path text w0 in
      record {
        metadata = record { is_file = true; is_dir = false; st_mode = 0o600 };
        is_there = ap metadata_of node;
        regular = refl;
        private = refl;
        reads = ap text_of node;
      };
}
