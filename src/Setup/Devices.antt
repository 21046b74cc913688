-- ===== src/Setup/Devices.antt =====
-- Which devices SetParameters of src/zstore_controller.cc finds, and which queue pairs ConfigureSpdkQpairs takes.
use mathlib.Core.List.{append_assoc, append-nil}
use zstore.Common.{
  ℕ, zero, suc, ◌+◌, ◌*◌, ◌<◌, ◌≤◌, ◌≡◌, ◌⊎◌, inl, inr, refl, ap, sym, ◌∙◌, Bool, Bool-cases, ltb,
  ltb→lt, ltb_false→le, true, none, some, List, [], ◌∷◌, ◌++◌, length, get_elem?_lt, get_elem?_ge,
  ok, err, null_pointer, out_of_bounds, ==_ne, arith, codes, ◌%◌,
}
use zstore.Conf.{Conf}
use zstore.Device.{Device, init}
use zstore.Http.Listing.{to_string}
use zstore.Setup.{
  Address, Ctrlr, Spdk, Parameters, gateway_port, self_ip, target_address, populate_ip_ports,
  all_threads, init_device, register_ctrlr, register_all, set_parameters, configure_qpairs,
}

-- The gateways that the code knows.
abbrev pub IsGateway : ℕ → Type 0
IsGateway n = (n ≡ 1) ⊎ ((n ≡ 5) ⊎ (n ≡ 6))

-- The targets listen on the port of each gateway, and SPDK has all queue pairs.
pub record IsReachable (spdk : Spdk) : Type 0 where
  pub listens :
      (a : Address) (n : ℕ)
      → IsGateway n
      → a.port ≡ gateway_port n
      → (k : Ctrlr) × (spdk.connect a ≡ some k)
  pub queued :
      (a : Address) (k : Ctrlr) (nsid i : ℕ) → spdk.connect a ≡ some k → k.io_qpair nsid i ≡ true
  pub grouped : (i n : ℕ) → spdk.group_add i n ≡ true

namespace_device : Device → Ctrlr → ℕ → ℕ → Device
namespace_device raw k nsid zone_id =
    init (k.namespace nsid).zone_size (k.namespace nsid).num_zones zone_id raw

-- The devices are the two namespaces of each target, in the order of the addresses.
pub AreRegistered : Spdk → List Address → List Device → Type 0
AreRegistered spdk [] ds = ds ≡ []
AreRegistered spdk (a ∷ rest) ds =
    (k : Ctrlr) × (others : List Device) × (spdk.connect a ≡ some k)
    × (ds
        ≡ namespace_device spdk.raw k 1 a.zone_id1
          ∷ namespace_device spdk.raw k 2 a.zone_id2
          ∷ others)
    × AreRegistered spdk rest others

all_threads-true : (test : ℕ → Bool) (n : ℕ) → ((i : ℕ) → test i ≡ true) → all_threads test n ≡ true
unfolding all_threads
all_threads-true test zero h = refl
all_threads-true test (suc n) h = rw (all_threads-true test n h) (h n)

init_device_lem :
    (c : Conf) (raw : Device) (k : Ctrlr) (nsid zone_id : ℕ)
    → ((i : ℕ) → k.io_qpair nsid i ≡ true)
    → init_device c raw k nsid zone_id ≡ ok (namespace_device raw k nsid zone_id)
unfolding init_device namespace_device
init_device_lem c raw k nsid zone_id h =
    rw (all_threads-true (k.io_qpair nsid) c.num_io_threads h) refl

AreOn : ℕ → List Address → Type 0
AreOn option [] = option ≡ option
AreOn option (a ∷ rest) = (a.port ≡ gateway_port option) × AreOn option rest

register_all_lem :
    (c : Conf) (spdk : Spdk) (option : ℕ) (addresses : List Address) (ds : List Device)
    → IsReachable spdk
    → IsGateway option
    → AreOn option addresses
    → (es : List Device) × (register_all c spdk addresses ds ≡ ok (ds ++ es))
      × AreRegistered spdk addresses es
      × (length es ≡ 2 * length addresses)
unfolding register_all AreRegistered AreOn register_ctrlr
register_all_lem c spdk option [] ds r g on = ([], ap ok (sym (append-nil ds)), refl, refl)
register_all_lem c spdk option (a ∷ rest) ds r g (here, on) =
    let (k, found) = r.listens a option g here in
    let d1 = namespace_device spdk.raw k 1 a.zone_id1 in
    let d2 = namespace_device spdk.raw k 2 a.zone_id2 in
    let (es, done, registered, size) =
      register_all_lem c spdk option rest (ds ++ (d1 ∷ d2 ∷ [])) r g on in
    (
      d1 ∷ d2 ∷ es,
      rw found (
          rw (init_device_lem c spdk.raw k 1 a.zone_id1 (λ i. r.queued a k 1 i found)) (
            rw (init_device_lem c spdk.raw k 2 a.zone_id2 (λ i. r.queued a k 2 i found))
              (done ∙ ap ok (append_assoc ds (d1 ∷ d2 ∷ []) es)))),
      (k, es, found, refl, registered),
      omega (arith, size),
    )

pub numbers : ℕ → ℕ → List ℕ
numbers i zero = []
numbers i (suc n) = i ∷ numbers (suc i) n

pub configure_qpairs_lem :
    (c : Conf) (spdk : Spdk) (devices : List Device) (i n : ℕ)
    → IsReachable spdk
    → i + n ≤ length devices
    → configure_qpairs c spdk devices i n ≡ ok (numbers i n)
unfolding configure_qpairs numbers
configure_qpairs_lem c spdk devices i zero r h = refl
configure_qpairs_lem c spdk devices i (suc n) r h =
    let (d, there) = get_elem?_lt devices i (omega arith) in
    rw there (
      rw (all_threads-true (spdk.group_add i) c.num_io_threads (r.grouped i))
        (rw (configure_qpairs_lem c spdk devices (suc i) n r (omega arith)) refl))

-- More devices in the configuration than SPDK found: the loop leaves the vector.
pub configure_qpairs-overrun :
    (c : Conf) (spdk : Spdk) (devices : List Device) (i n : ℕ)
    → IsReachable spdk
    → i ≤ length devices
    → length devices < i + n
    → configure_qpairs c spdk devices i n ≡ err out_of_bounds
unfolding configure_qpairs
configure_qpairs-overrun c spdk devices i zero r h k = absurd (omega arith)
configure_qpairs-overrun c spdk devices i (suc n) r h k =
    elim (Bool-cases (ltb i (length devices))) [
      | inl below ↦
          let (d, there) = get_elem?_lt devices i (ltb→lt i (length devices) below) in
          let near = ltb→lt i (length devices) below in
          rw there (
            rw (all_threads-true (spdk.group_add i) c.num_io_threads (r.grouped i)) (
              rw
                (configure_qpairs-overrun c spdk devices (suc i) n r (omega (arith, near))
                  (omega arith))
                refl))
      | inr above ↦ rw (get_elem?_ge devices i (ltb_false→le i (length devices) above)) refl
    ]

-- Where the targets listen, SetParameters of a gateway that the code knows finds six devices, the two
-- namespaces of each of the three targets in the order of their addresses, and notes the settings.
pub set_parameters-AreRegistered :
    (c : Conf) (spdk : Spdk) (key_experiment option : ℕ)
    → IsReachable spdk
    → IsGateway option
    → (t : Parameters) × (set_parameters c spdk key_experiment option ≡ ok t)
      × AreRegistered spdk (populate_ip_ports c option) t.devices
      × (length t.devices ≡ 6)
      × (t.num_devices ≡ c.num_of_devices * c.num_of_targets)
      × (t.context_pool_size ≡ c.context_pool_size)
unfolding set_parameters populate_ip_ports target_address AreOn
set_parameters-AreRegistered c spdk key_experiment option r g =
    let (es, done, registered, size) =
      register_all_lem c spdk option (populate_ip_ports c option) [] r g
        (refl, (refl, (refl, refl))) in
    (
      record {
        key_experiment = key_experiment;
        option = option;
        gateway = option % 256;
        num_devices = c.num_of_devices * c.num_of_targets;
        context_pool_size = c.context_pool_size;
        node_name = codes "gateway_" ++ to_string (option % 256);
        self_address = self_ip option;
        devices = es;
      },
      rw done refl,
      registered,
      size,
      refl,
      refl,
    )

-- SetParameters of another gateway, with no port to connect to, uses a null pointer.
pub set_parameters-unknown :
    (c : Conf) (spdk : Spdk) (key_experiment option : ℕ)
    → ((a : Address) → a.port ≡ [] → spdk.connect a ≡ none)
    → ¬ IsGateway option
    → set_parameters c spdk key_experiment option ≡ err null_pointer
unfolding set_parameters populate_ip_ports target_address register_all register_ctrlr gateway_port
set_parameters-unknown c spdk key_experiment option closed strange =
    let port : gateway_port option ≡ [] = rw (==_ne option 1 (λ e. strange (inl e))) (
      rw (==_ne option 5 (λ e. strange (inr (inl e))))
        (rw (==_ne option 6 (λ e. strange (inr (inr e)))) refl)) in
    rw
      (closed (target_address c option (codes "nqn.2024-04.io.zstore2:cnode1") (codes "12.12.12.2"))
        port)
      refl
