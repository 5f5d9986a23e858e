-- ===== src/Lib.antt =====
-- The DPI engine: a packet inspector in Python that follows flows, reads the names in them (TLS
-- SNI, HTTP Host) and decides by rules which packets to forward. This library models the code and
-- proves what makes it correct.
--
-- The parts and how they work together. The pipeline (Pipeline: src/v2/pipeline.py) parses each
-- packet of a capture (Packet: src/packet_parser.py), builds a key of its addresses and submits it
-- to a pool of workers (Pool: src/v2/worker_pool.py). The balancer (Balancer:
-- src/v2/flow_balancer.py) sends both directions of a connection to one worker, through a queue
-- (Queue: src/v2/thread_safe_queue.py) that the thread of the worker (Worker: src/v2/worker.py)
-- empties. Each worker has a processor of its own (Processor: src/v2/dpi_processor.py), which
-- finds the flow of the packet in its table (Tracker: src/connection_tracker.py), reads the SNI
-- (Sni: src/sni_extractor.py) or else the Host header (Http: src/http_host_extractor.py), and
-- applies the rules (Rules: src/rule_manager.py). Types has the data of src/types.py. Hello has the
-- messages that generate_test_pcap.py builds. The first engine (Engine: src/dpi_engine.py) works on
-- a list of packets with one table, and runs the analyzer (Analyzer: src/analyzer.py) on them, which
-- keeps statistics and counts the flows in the same table again. The emitter (Emitter:
-- src/data_engineering/emitter.py) makes events of what that engine returns.
--
-- The command line (Main: main.py) takes its packets from a file or from a live capture (Live:
-- src/live_capture.py), parses them, runs the analyzer, prints its statistics (Main.Lines), writes
-- the packets of flows that are not blocked (Main.Verdict, Main.Portless), hands the events to the
-- sinks (Sinks: kafka_sink.py, postgres_sink.py and parquet_sink.py in src/data_engineering; the
-- calls of them are in Main.Phases), and in the end runs the pipeline (Main.Run). The tasks of Airflow (Airflow:
-- src/data_engineering/airflow_dag.py) read the events from the file of the Parquet sink and bring
-- them to PostgreSQL and Kafka, and the Spark job (Spark: src/data_engineering/pyspark_etl.py) makes
-- summaries of them. Generator has the packets of generate_test_pcap.py.
--
-- How the code is written here. A function keeps the name of the code's method; `__init__` is a
-- function with the class's name in small letters (connection_tracker, rule_manager, worker_pool);
-- a method that changes its object takes and returns the state. An exception is the `err` of a
-- Result, and what the code changed before it raised stays changed: get_or_create_flow and process
-- return the state beside the result. A Python dict is an association list in the order of
-- insertion (Dict), a set is a list of which the code only asks membership or walks through, a text
-- is a list of code points, bytes are a list of numbers. Flow objects live in the table; a result
-- names its flow by the five-tuple that the table holds it under, which is None for packets without
-- one. Library functions of Python on texts are written out in Text.
--
-- Other systems. Code that calls other systems is a statement with a log (Io): it appends its calls to
-- the log, and what a call answers, a value or an exception, is a function of the log before it and of
-- the call, a parameter. `try`, `except` and `finally` are those of the language. What such calls
-- return beside that (the packets of a file, those that Scapy captures, the interfaces) is in the
-- records Host and Surroundings. A printed line is an entry of the log.
--
-- Threads. A worker's thread is a state machine, one step for each access to shared state, and a
-- run of the program is any list of events: a call of the main thread or a step of some worker. A
-- `pop` that times out goes back to the test of the loop.
--
-- Bounds. The loop over the TLS extensions runs on fuel, one more than the length of the payload;
-- each turn moves on by four bytes or more.
-- The decimal digits of a port run on fuel greater than the number.
--
-- Simplified. `lower` changes ASCII letters only, which is exact on the names of hosts. Texts that
-- are encoded have no surrogates. Scapy is a parameter: the length of a packet and its layers.
-- A worker count is a natural number, so that the code's test for one below zero is that for zero.
-- The pipeline makes its pool with a factory; where the workers share one processor (Pool.Shared), a
-- call of it is one action. An `Option Error` beside a state (Turn) is a loop's body that went
-- on or raised. An exception of
-- other code is one of a few kinds (Error), and a printed line does not have its text. `upper` changes
-- ASCII letters only. A line is a list of pieces, of which the paddings and the percentage keep their
-- numbers. The V2 pipeline is one call of main, with its report a parameter.
--
-- Not modelled: reading and writing of capture files, which are calls of Scapy; argparse; the JSON
-- serializer of the Kafka sink, which is the standard library's; two calls of a shared processor that
-- interleave; the container set-up.
pub mod Prelude
pub mod Text
pub mod Types
pub mod Bytes
pub mod Dict
pub mod Packet
pub mod Rules
pub mod Tracker
pub mod Sni
pub mod Http
pub mod Io
pub mod Hello
pub mod Generator
pub mod Balancer
pub mod Queue
pub mod Worker
pub mod Pool
pub mod Processor
pub mod Pipeline
pub mod Analyzer
pub mod Engine
pub mod Emitter
pub mod Live
pub mod Sinks
pub mod Spark
pub mod Airflow
pub mod Main
