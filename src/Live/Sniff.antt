-- ===== src/Live/Sniff.antt =====
-- What `sniff` returns, and when it uses its callback.
use dpi_engine_python.Io.{Io, Outcome, ◌>>=◌}
use dpi_engine_python.Live.{
  LivePacketCapture, candidates, LiveCall, get_if_hwaddr, read_packets, scapy_sniff, write_pcap,
  Host,
}
use dpi_engine_python.Live.Capture.{candidate_file, sniff_on}
use dpi_engine_python.Prelude.{
  ◌≡◌, ◌++◌, true, false, ◌≢◌, ◌⊎◌, Bool, not, Option, none, List, [], ◌∷◌,
}
use dpi_engine_python.Prelude.Result.{Error, Result, ok, err}
use dpi_engine_python.Text.{Str}

module _ {P : Type 0} (host : Host P) where
  -- The file for the replay can be read, whatever was called before.
  abbrev pub IsReadable : Type 0
  IsReadable =
      (log : List (LiveCall P)) → host.world log (read_packets (candidate_file host)) ≡ ok tt

  -- The call of Scapy that captures, and the one that saves the packets.
  abbrev pub is_capture_call : LiveCall P → Bool
  is_capture_call (scapy_sniff iface promisc timeout filter count store) = true
  is_capture_call (write_pcap path packets) = true
  is_capture_call _ = false

  -- A call in the log that captures or saves raised.
  pub record IsFailed (log : List (LiveCall P)) : Type 0 where
    pub before : List (LiveCall P)
    pub event : LiveCall P
    pub capturing : is_capture_call event ≡ true
    pub error : Error
    pub raised : host.world before event ≡ err error
    pub rest : List (LiveCall P)
    pub logged : log ≡ (before ++ event ∷ []) ++ rest

  -- Why the replay stands in for a capture: there is no interface, nothing was captured, or a call
  -- failed.
  abbrev pub NeedsReplay : LivePacketCapture → Bool → List (LiveCall P) → Type 0
  NeedsReplay c callback log =
      ((c.interface ≡ none) × (candidates host.ifaces ≡ []))
      ⊎ ((host.captured (not callback) ≡ []) ⊎ IsFailed log)

  -- The packets that were captured, or the replay with the reason for it.
  abbrev pub Returns : LivePacketCapture → Bool → Outcome (LiveCall P) (List P) → Type 0
  Returns c callback o =
      ((o.result ≡ ok (host.captured (not callback))) × (host.captured (not callback) ≢ []))
      ⊎ ((o.result ≡ ok (host.replayed (candidate_file host))) × NeedsReplay c callback o.log)

  -- The address of the interface that is selected could not be asked for, which is not caught.
  pub record IsUnaddressed (c : LivePacketCapture) (o : Outcome (LiveCall P) (List P))
      : Type 0 where
    pub unasked : c.interface ≡ none
    pub before : List (LiveCall P)
    pub name : Str
    pub others : List Str
    pub selected : candidates host.ifaces ≡ name ∷ others
    pub error : Error
    pub raised : host.world before (get_if_hwaddr name) ≡ err error
    pub ended : o.result ≡ err error
    pub logged : o.log ≡ before ++ get_if_hwaddr name ∷ []

  -- The result of the `try` block, or the call that raised.
  abbrev Ends : LivePacketCapture → Bool → Outcome (LiveCall P) (List P) → Type 0
  Ends c callback o = ((e : Error) × (o.result ≡ err e) × IsFailed o.log) ⊎ Returns c callback o

  -- A step of the block raises only where a call fails.
  abbrev Fails : {A : Type 0} → Io (LiveCall P) A → Type 0
  Fails {A} m =
      (log : List (LiveCall P)) (e : Error) → (m log).result ≡ err e → IsFailed (m log).log

  Sniffed : LivePacketCapture → Bool → Io (LiveCall P) (Option Str) → List (LiveCall P) → Type 0
  Sniffed c callback resolve log =
      let r = (resolve >>= sniff_on host c callback) log in IsUnaddressed c r ⊎ Returns c callback r
