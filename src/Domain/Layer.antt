-- ===== src/Domain/Layer.antt =====
-- Operational layers and operating systems (crates/runlane-core/src/lib.rs).
use runlane.Prelude.{Bool, true, false, String, ◌≡◌, ◌↔◌, arith}

pub data OperationalLayer : Type 0 where
  system platform application : OperationalLayer

pub data OperatingSystem : Type 0 where
  linux free_bsd open_bsd solaris illumos unknown : OperatingSystem

-- the derived `PartialEq`
abbrev pub layer_eq : OperationalLayer → OperationalLayer → Bool
layer_eq system system = true
layer_eq platform platform = true
layer_eq application application = true
layer_eq _ _ = false

abbrev pub os_eq : OperatingSystem → OperatingSystem → Bool
os_eq linux linux = true
os_eq free_bsd free_bsd = true
os_eq open_bsd open_bsd = true
os_eq solaris solaris = true
os_eq illumos illumos = true
os_eq unknown unknown = true
os_eq _ _ = false

pub layer_eq_iff : (a b : OperationalLayer) → (layer_eq a b ≡ true) ↔ (a ≡ b)
layer_eq_iff a b = ground arith

pub os_eq_iff : (a b : OperatingSystem) → (os_eq a b ≡ true) ↔ (a ≡ b)
os_eq_iff a b = ground arith

-- the derived `Debug`
abbrev pub debug_layer : OperationalLayer → String
debug_layer system = "System"
debug_layer platform = "Platform"
debug_layer application = "Application"
