-- ===== src/Main/Skips.antt =====
-- `main` as the first task of the Airflow DAG, which skips the external sinks.
use dpi_engine_python.Airflow.{Command, bash, run_dpi}
use dpi_engine_python.Dict.{get}
use dpi_engine_python.Main.{Arguments, MainCall, Surroundings}
use dpi_engine_python.Main.Keeps.{is_external}
use dpi_engine_python.Main.Phases.{skips}
use dpi_engine_python.Main.Run.{main}
use dpi_engine_python.Main.Whole.{main-Keeps}
use dpi_engine_python.Packet.{Scapy}
use dpi_engine_python.Prelude.{◌≡◌, refl, inl, false, Option, none, List, [], ◌∷◌, ◌++◌, any, arith}
use dpi_engine_python.Prelude.Eq.{list_eq, nat_eq, option_eq}
use dpi_engine_python.Text.{Str, codes}

-- A variable in the environment that a task sets.
unfoldable pub variable : Command → Str → Option Str
variable (bash command environment) name = get environment name
variable _ name = none

any-append :
    {P : Type 0} (event : MainCall P) (log : List (MainCall P))
    → is_external event ≡ false
    → any is_external log ≡ false
    → any is_external (log ++ event ∷ []) ≡ false
any-append event [] h quiet = rw h refl
any-append event (first ∷ log) h quiet = ground (arith, any-append event log h)

-- With the setting that the first task of the DAG has in its environment, `main` calls neither
-- PostgreSQL nor Kafka, whatever the packets, the arguments and the answers of all other calls are.
pub main-skips :
    (s : Scapy) (around : Surroundings s.Packet) (args : Arguments)
    → around.skip_external_sinks ≡ variable run_dpi.command (codes "DPI_SKIP_EXTERNAL_SINKS")
    → any is_external (main s around args []).log ≡ false
unfolding variable get skips
main-skips s around args h =
    main-Keeps s around (λ log. any is_external log ≡ false) (λ e. is_external e ≡ false) any-append
      (λ e fine. fine) args (inl (rw h refl)) [] refl
