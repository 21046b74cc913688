-- ===== src/Setup.antt =====
-- How a gateway starts: SetParameters, populateIpPorts, register_ctrlr, ConfigureSpdkQpairs and Init of
-- src/zstore_controller.cc, with Device::Init of src/device.cc. SPDK is a parameter: which controllers it
-- connects to, what these report, and whether it has queue pairs.
pub mod Devices
pub mod Serving
pub mod Sessions
mod Tests
use zstore.Common.{
  ℕ, zero, suc, ◌+◌, ◌*◌, ◌%◌, Bool, true, Option, none, some, List, [], ◌∷◌, ◌++◌, length,
  get_elem?, ◌&&◌, ◌==◌, leb, if◌then◌else◌, codes, Result, ok, err, assertion, null_pointer,
  out_of_bounds, guard, ◌>>=◌, ◌>>◌,
}
use zstore.Conf.{Conf}
use zstore.Device.{Device, init}
use zstore.Hash.{KeyHash}
use zstore.Http.Listing.{to_string}
use zstore.Pool.{Pool, new_pool}
use zstore.Placement.{populate_map}
use zstore.Store.{MapEntry, DevTuple}
use zstore.Store.Map.{FlatMap}
use zstore.Store.DevHash.{populate_dev_hash}
use zstore.Gateway.{Gateway}

-- The tuple of populateIpPorts.
pub record Address : Type 0 where
  pub nqn : List ℕ
  pub ip : List ℕ
  pub port : List ℕ
  pub zone_id1 : ℕ
  pub zone_id2 : ℕ

-- What SPDK reports of a namespace.
pub record Namespace : Type 0 where
  pub zone_size : ℕ
  pub num_zones : ℕ

-- A controller: its namespaces, and whether there is a queue pair for a namespace and a thread.
pub record Ctrlr : Type 0 where
  pub namespace : ℕ → Namespace
  pub io_qpair : ℕ → ℕ → Bool

-- `connect` answers with the null pointer or a controller, and `group_add` whether the queue pair of a
-- device goes into the poll group of a thread. A new Device holds `raw` before Device::Init.
pub record Spdk : Type 0 where
  pub connect : Address → Option Ctrlr
  pub group_add : ℕ → ℕ → Bool
  pub raw : Device

-- Another gateway is only logged: the port and the address stay empty.
pub gateway_port : ℕ → List ℕ
gateway_port option =
    if option == 1
    then codes "5520"
    else if option == 5
    then codes "5521"
    else if option == 6
    then codes "5522"
    else []

pub self_ip : ℕ → List ℕ
self_ip option =
    if option == 1
    then codes "12.12.12.1"
    else if option == 5
    then codes "12.12.12.5"
    else if option == 6
    then codes "12.12.12.6"
    else []

-- Both namespaces of a target start in the zone of the configuration.
pub target_address : Conf → ℕ → List ℕ → List ℕ → Address
unfolding gateway_port
target_address c option nqn ip = record {
  nqn = nqn;
  ip = ip;
  port = gateway_port option;
  zone_id1 = c.current_zone;
  zone_id2 = c.current_zone;
}

pub populate_ip_ports : Conf → ℕ → List Address
unfolding target_address
populate_ip_ports c option =
    target_address c option (codes "nqn.2024-04.io.zstore2:cnode1") (codes "12.12.12.2")
    ∷ target_address c option (codes "nqn.2024-04.io.zstore3:cnode1") (codes "12.12.12.3")
    ∷ target_address c option (codes "nqn.2024-04.io.zstore5:cnode1") (codes "12.12.12.5")
    ∷ []

-- A loop over the threads that asserts a test for each.
pub all_threads : (ℕ → Bool) → ℕ → Bool
all_threads test zero = true
all_threads test (suc n) = all_threads test n && test n

-- Device::Init of the namespace `nsid`, with the assert for each queue pair.
pub init_device : Conf → Device → Ctrlr → ℕ → ℕ → Result Device
unfolding all_threads
init_device c raw ctrlr nsid zone_id = do
  let ns = ctrlr.namespace nsid
  guard (all_threads (ctrlr.io_qpair nsid) c.num_io_threads) assertion
  ok (init ns.zone_size ns.num_zones zone_id raw)

-- The null pointer of a connection that failed is not tested before it is used. The address that each
-- device notes as well is read nowhere.
pub register_ctrlr : Conf → Device → Option Ctrlr → ℕ → ℕ → List Device → Result (List Device)
unfolding init_device
register_ctrlr c raw none zone_id1 zone_id2 devices = err null_pointer
register_ctrlr c raw (some ctrlr) zone_id1 zone_id2 devices = do
  device1 ← init_device c raw ctrlr 1 zone_id1
  device2 ← init_device c raw ctrlr 2 zone_id2
  ok (devices ++ (device1 ∷ device2 ∷ []))

-- The loop of SetParameters over the addresses.
pub register_all : Conf → Spdk → List Address → List Device → Result (List Device)
unfolding register_ctrlr
register_all c spdk [] devices = ok devices
register_all c spdk (a ∷ rest) devices = do
  devices' ← register_ctrlr c spdk.raw (spdk.connect a) a.zone_id1 a.zone_id2 devices
  register_all c spdk rest devices'

-- mKeyExperiment, mOption, mGateway, mN, mContextPoolSize, nodeName_, mSelfIp and mDevices.
pub record Parameters : Type 0 where
  pub key_experiment : ℕ
  pub option : ℕ
  pub gateway : ℕ
  pub num_devices : ℕ
  pub context_pool_size : ℕ
  pub node_name : List ℕ
  pub self_address : List ℕ
  pub devices : List Device

pub set_parameters : Conf → Spdk → ℕ → ℕ → Result Parameters
unfolding register_all populate_ip_ports self_ip
set_parameters c spdk key_experiment option = do
  devices ← register_all c spdk (populate_ip_ports c option) []
  ok (record {
    key_experiment = key_experiment;
    option = option;
    gateway = option % 256;
    num_devices = c.num_of_devices * c.num_of_targets;
    context_pool_size = c.context_pool_size;
    node_name = codes "gateway_" ++ to_string (option % 256);
    self_address = self_ip option;
    devices = devices;
  })

-- The loop of ConfigureSpdkQpairs over `n` devices from number `i` on. It answers with the numbers of
-- the devices whose queue pairs are in the poll groups.
pub configure_qpairs : Conf → Spdk → List Device → ℕ → ℕ → Result (List ℕ)
unfolding all_threads
configure_qpairs c spdk devices i zero = ok []
configure_qpairs c spdk devices i (suc n) = do
  d ← elim (get_elem? devices i) [ none ↦ err out_of_bounds | some d ↦ ok d ]
  guard (all_threads (spdk.group_add i) c.num_io_threads) assertion
  polled ← configure_qpairs c spdk devices (suc i) n
  ok (i ∷ polled)

-- The length of mIoThread, whose poll groups ConfigureSpdkQpairs makes first.
abbrev io_threads : ℕ
io_threads = 16

abbrev object_size_in_blocks : List ℕ
object_size_in_blocks =
    1 ∷ 2 ∷ 4 ∷ 8 ∷ 16 ∷ 32 ∷ 64 ∷ 128 ∷ 256 ∷ 512 ∷ 1024 ∷ 2048 ∷ 4096 ∷ 8192 ∷ []

-- mObjectSizePoolMap has the same size for each.
abbrev object_size_pool : ℕ → ℕ
object_size_pool blocks = 4096

replay_pools : Conf → (ℕ → List ℕ) → List ℕ → List (ℕ × Pool)
replay_pools c zmalloc [] = []
replay_pools c zmalloc (b ∷ bs) =
    (b, new_pool c zmalloc (object_size_pool b)) ∷ replay_pools c zmalloc bs

-- A gateway whose Init has got to ReadZoneHeaders. One of `contexts` and `replay_contexts` is used.
pub record Started (F : FlatMap MapEntry) : Type 0 where
  pub parameters : Parameters
  pub contexts : Option Pool
  pub replay_contexts : List (ℕ × Pool)
  pub polled : List ℕ
  pub dev_hash : List DevTuple
  pub objects : F.Carrier
  pub inflight : List KeyHash

module _ (F : FlatMap MapEntry) (c : Conf) where
  -- Init up to and with ReadZoneHeaders, which reads nothing in this version; SetupZookeeper, the sleep and
  -- RdmaClientConnect, which follow, are left out. `sizes`: mRandReadMapSize,
  -- mCkptMapSize and mCkptRecentMapSize.
  pub init_until_headers :
      Spdk → (ℕ → List ℕ) → (ℕ → KeyHash) → (ℕ × ℕ × ℕ) → ℕ → ℕ → Result (Started F)
  init_until_headers spdk zmalloc key_of sizes key_experiment option = do
    t ← set_parameters c spdk key_experiment option
    guard (leb c.num_io_threads io_threads) out_of_bounds
    polled ← configure_qpairs c spdk t.devices 0 t.num_devices
    let filled = populate_map F c key_of key_experiment option sizes (F.empty, [])
    ok (record {
      parameters = t;
      contexts = if c.replay then none else some (new_pool c zmalloc t.context_pool_size);
      replay_contexts = if c.replay then replay_pools c zmalloc object_size_in_blocks else [];
      polled = polled;
      dev_hash = populate_dev_hash c [];
      objects = filled.0;
      inflight = filled.1;
    })

  -- The state that the handlers of requests work on, once there is a pool for them.
  pub serving : Started F → Pool → Gateway F
  serving s contexts = record {
    objects = s.objects;
    contexts = contexts;
    devices = s.parameters.devices;
    dev_hash = s.dev_hash;
    broadcast = [];
    total_counts = 0;
  }
