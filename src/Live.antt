-- ===== src/Live.antt =====
-- src/live_capture.py: live capture through Scapy and Npcap, which falls back to the replay of a file.
-- The interfaces, the libraries and the files are those of a host, a parameter.
pub mod Capture
pub mod Resolve
pub mod Sniff
pub mod Callback
pub mod Stream
mod Tests
use dpi_engine_python.Dict.{Dict, keys}
use dpi_engine_python.Io.{
  Outcome, Io, World, any_error, return, raise, call, record_event, on_result, ◌>>=◌, ◌>>◌, attempt,
  try_else, for_each, evaluate,
}
use dpi_engine_python.Prelude.{
  ℕ, Bool, true, false, not, ◌||◌, ◌&&◌, Option, none, some, List, [], ◌∷◌, ◌++◌, length, map, keep,
  if◌then◌else◌,
}
use dpi_engine_python.Prelude.Eq.{◌==◌, list_eq, nat_eq, contains}
use dpi_engine_python.Prelude.Result.{Error, Result, ok, err}
use dpi_engine_python.Pipeline.{or_text}
use dpi_engine_python.Text.{Str, codes, lower, truthy, starts_with, ends_with}

-- An interface of Scapy: an attribute that is missing is none.
pub record Iface : Type 0 where
  pub isloopback : Option Bool
  pub name : Option Str
  pub description : Option Str
  pub mac : Option Str
  pub hwaddr : Option Str
  pub ip : Option Str
  pub info : Option Str

pub record LivePacketCapture : Type 0 where
  pub interface : Option Str
  pub promiscuous : Bool
  pub timeout : ℕ
  pub filter : Option Str
  pub stop_after : Option ℕ
  pub pcap_save : Option Str

-- `needle in text`
unfoldable pub has_text : Str → Str → Bool
has_text needle [] = starts_with [] needle
has_text needle (c ∷ text) = starts_with (c ∷ text) needle || has_text needle text

abbrev pub is_set : Option Bool → Bool
is_set (some true) = true
is_set _ = false

unfoldable pub is_loopback : Iface → Bool
is_loopback iface =
    is_set iface.isloopback
    || (has_text (codes "loopback") (lower (or_text [] iface.name))
        || has_text (codes "loopback") (lower (or_text [] iface.description)))

unfoldable pub get_hwaddr : Iface → Str
get_hwaddr iface = if truthy iface.mac then or_text [] iface.mac else or_text [] iface.hwaddr

-- The test of the loop that collects candidates.
unfoldable pub is_candidate : Iface → Bool
is_candidate iface =
    not (is_loopback iface)
    && (truthy (some (get_hwaddr iface)) && not (get_hwaddr iface == codes "00:00:00:00:00:00"))

unfoldable pub candidates : Dict Str Iface → List Str
candidates [] = []
candidates ((name, iface) ∷ ifaces) =
    if is_candidate iface then name ∷ candidates ifaces else candidates ifaces

-- The first name that ends with the requested one, or that one itself.
unfoldable pub matching : Str → List Str → Str
matching wanted [] = wanted
matching wanted (name ∷ names) = if ends_with name wanted then name else matching wanted names

-- An entry of `list_interfaces`; `isup` is always True.
pub record Listed : Type 0 where
  pub listed_name : Str
  pub listed_hwaddr : Str
  pub listed_ip : Option Str
  pub listed_isloopback : Bool
  pub isup : Bool

unfoldable pub list_interfaces : Dict Str Iface → List Listed
list_interfaces [] = []
list_interfaces ((name, iface) ∷ ifaces) =
    let entry : Listed = record {
      listed_name = name;
      listed_hwaddr = get_hwaddr iface;
      listed_ip = if truthy iface.ip then iface.ip else iface.info;
      listed_isloopback = is_loopback iface;
      isup = true;
    } in
    if is_loopback iface then list_interfaces ifaces else entry ∷ list_interfaces ifaces

-- Why a capture is simulated.
pub data Reason : Type 0 where
  no_interface no_packets : Reason
  failed : Error → Reason

-- The calls of other code, the warnings, and the writes to `_resolved_interface`.
pub data LiveCall (P : Type 0) : Type 0 where
  get_if_hwaddr warn_selected load_dll set_resolved read_packets : Str → LiveCall P
  warn_unavailable : Reason → LiveCall P
  set_promisc : Str → Bool → LiveCall P
  scapy_sniff : Str → Bool → ℕ → Option Str → Option ℕ → Bool → LiveCall P
  use_callback : P → LiveCall P
  write_pcap : Str → List P → LiveCall P

-- What the program meets: `captured` is what Scapy returns, where it does, with and without `store`,
-- and `replayed` is what a file holds.
pub record Host (P : Type 0) : Type 0 where
  pub world : World (LiveCall P)
  pub ifaces : Dict Str Iface
  pub path_exists : Str → Bool
  pub captured : Bool → List P
  pub replayed : Str → List P
