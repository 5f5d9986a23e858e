-- ===== src/Types.antt =====
-- src/types.py: applications, five-tuples and flows.
use Prim.Native.Nat.{ℕ}
use mathlib.Core.Bool.{Bool, true, false, ◌&&◌}
use dpi_engine_python.Prelude.{◌≡◌, ◌↔◌, Option, arith}
use dpi_engine_python.Prelude.Eq.{Equality, ◌==◌, nat_eq, list_eq, list_beq_iff}
use dpi_engine_python.Text.{Str, codes}

pub data AppType : Type 0 where
  unknown http https youtube facebook google github instagram twitter amazon : AppType
  netflix discord zoom telegram tiktok spotify cloudflare microsoft apple : AppType

abbrev pub AppType-discrete : Discrete AppType
AppType-discrete = hlevel

abbrev app_beq : AppType → AppType → Bool
app_beq a b = elim (AppType-discrete a b) [ yes _ ↦ true | no _ ↦ false ]

pub app_beq_iff : (a b : AppType) → (app_beq a b ≡ true) ↔ (a ≡ b)
app_beq_iff a b = ground arith

instance abbrev pub app_eq : Equality AppType
app_eq = record { equals = app_beq; equals_iff = app_beq_iff }

-- A member's `name`, which is its `value` too.
unfoldable pub app_name : AppType → Str
app_name unknown = codes "UNKNOWN"
app_name http = codes "HTTP"
app_name https = codes "HTTPS"
app_name youtube = codes "YOUTUBE"
app_name facebook = codes "FACEBOOK"
app_name google = codes "GOOGLE"
app_name github = codes "GITHUB"
app_name instagram = codes "INSTAGRAM"
app_name twitter = codes "TWITTER"
app_name amazon = codes "AMAZON"
app_name netflix = codes "NETFLIX"
app_name discord = codes "DISCORD"
app_name zoom = codes "ZOOM"
app_name telegram = codes "TELEGRAM"
app_name tiktok = codes "TIKTOK"
app_name spotify = codes "SPOTIFY"
app_name cloudflare = codes "CLOUDFLARE"
app_name microsoft = codes "MICROSOFT"
app_name apple = codes "APPLE"

pub record FiveTuple : Type 0 where
  pub src_ip : Str
  pub dst_ip : Str
  pub src_port : ℕ
  pub dst_port : ℕ
  pub protocol : Str

abbrev five_tuple_beq : FiveTuple → FiveTuple → Bool
five_tuple_beq a b =
    a.src_ip == b.src_ip
    && a.dst_ip == b.dst_ip
    && a.src_port == b.src_port
    && a.dst_port == b.dst_port
    && a.protocol == b.protocol

pub five_tuple_beq_iff : (a b : FiveTuple) → (five_tuple_beq a b ≡ true) ↔ (a ≡ b)
five_tuple_beq_iff a b = ground (
  arith,
  list_beq_iff a.src_ip b.src_ip,
  list_beq_iff a.dst_ip b.dst_ip,
  list_beq_iff a.protocol b.protocol,
)

instance abbrev pub five_tuple_eq : Equality FiveTuple
five_tuple_eq = record { equals = five_tuple_beq; equals_iff = five_tuple_beq_iff }

-- `five_tuple` is None for the flow of a packet without addresses.
pub record Flow : Type 0 where
  pub five_tuple : Option FiveTuple
  pub app_type : AppType
  pub sni : Option Str
  pub blocked : Bool
  pub packet_count : ℕ

-- `Flow(five_tuple=..., sni=...)`, with the defaults of the class.
abbrev pub new_flow : Option FiveTuple → Option Str → Flow
new_flow five_tuple sni = record {
  five_tuple = five_tuple;
  app_type = unknown;
  sni = sni;
  blocked = false;
  packet_count = 0;
}
