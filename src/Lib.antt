-- ===== src/Lib.antt =====
-- TurboOCR, an OCR server in C++: a verification library of the parts of it that decide, bound and
-- route, next to the code that runs the models.
--
-- A request comes in over HTTP or gRPC. The gate checks its parameters, the sniffers read the size of an
-- image from its first bytes before anything is decoded, and the size limits reject what is too large. A
-- work pool runs the request, a pipeline pool lends it one of the pipelines, or a dispatcher queues it for
-- the worker of one, under the eyes of a watchdog. Behind the detection and
-- layout models, the router decides for every layout cell which stage reads it, and for every detected
-- box whether text recognition sees it. A routing table says which backend reads tables and formulas. A
-- table that a vision model writes as OTSL markup is rendered as HTML, and HTML from a model is reduced
-- to the tags of a table. The blocks of a page are put in reading order, and text that repeats itself is
-- cut. Then tables that go on over pages are joined and headings get their levels.
--
-- Common: names shared by all files, lists and Boolean tests over the native numbers, byte strings,
--   signed integers, and machine floats as a record of operations without
--   laws, so nothing depends on how they round.
-- Decode: include/turbo_ocr/decode/. Reader is the monad of the readers: a value, `unknown` for
--   std::nullopt, and two outcomes that the code cannot express, `overrun` for a read outside the buffer
--   and `stalled` for a loop without fuel. Png, Jpeg, Webp, Gif and Tiff are the peek_*_dims functions
--   of image_dims.h, Peek is peek_image_dimensions, SizeClass is size_classify.h with the caps of
--   image_config.h as a record. Totality holds the proofs for each format and for all, PngRoundTrip the
--   writer of a PNG header. The loop over JPEG segments has the end of the scan as its fuel, since every
--   round moves forward; the loop over TIFF entries has their number.
-- Otsl: src/table/vlm/otsl_html.cpp. Tokens is parse_otsl, Rows is split_rows and pad_rows, Html the
--   grid, the emission and otsl_to_html. The regular expression is a search for the first of six tags at
--   every place. Escape, Splitting, Shape and Spans are about html_escape, the
--   rows and the spans.
-- Pool: WorkPool is include/turbo_ocr/server/work_pool.h and PipelinePool is
--   include/turbo_ocr/pipeline/pool/pipeline_pool.h. WorkPool/Spec is a bounded queue with servers, and
--   WorkPool/Refinement compares the pool with it. In all three a critical section is one step of a
--   relation and an interleaving of threads is a run. The clock of the two pools, and with it their
--   timeouts, is the environment's.
--   PipelineDispatcher is src/pipeline/pipeline_dispatcher.cpp with its header: State has the records,
--   Worker a worker's loop and Watch the watchdog, each access to an atomic variable a step of its own, and
--   Steps the whole. What a task does to its pipeline, whether a rebuild succeeds and the clock are the
--   environment's. Undecided, Ledger and Books are about the tasks, Requests, Sight and HardKill
--   about the watchdog.
-- Validation: include/turbo_ocr/validation/. Params is request_validation.h, Options is query_options.h,
--   Gate is request_gate.h, PixelDims is pixel_dims.h, and Check the outcome of a check. drogon's
--   getParameter and urlDecode are functions that a request and a server hold. The loop over the query
--   has the length of the query as its fuel. ParamsLaws, LenientScan,
--   OptionSteps, OptionsLaws, GateLaws and PixelLaws hold
--   the proofs.
-- Recognition: Ctc is src/recognition/ctc_decode.cpp, the two greedy decoders; CtcLaws says what an
--   alignment is.
-- Serialization: Escape is append_escaped_string of
--   include/turbo_ocr/common/serialization/serialization_primitives.h, JsonString a reader of its output.
-- Router: include/turbo_ocr/router/ and src/router/. Types has the records of router_types.h, Geometry
--   the boxes of include/turbo_ocr/common/geometry/box.h, Rules the pure functions of
--   cua_router_rules.cpp on a class and a score, Route `route`, TieBreak
--   resolve_tie_breakers, Overlap build_overlap_stats, Classify CuaRouter::classify of cua_router.cpp. The
--   scratch vectors of the router are values of one call. RouteLaws, TieLaws, TieTable, ClassifyVectors
--   and ClassifyLaws hold the proofs.
-- LayoutFilter: include/turbo_ocr/layout/layout_postfilter.h, what is done to the boxes of the layout
--   model before anything reads them. Postfilter has the passes of postfilter_layout_boxes, with
--   std::sort as a parameter of which nothing is asked, and FilterLaws the proofs.
-- ReadingOrder: Projection and XyCut are src/layout/order/xy_cut.cpp, Assign is reading_priority_bucket of
--   include/turbo_ocr/layout/layout_types.h and xy_cut_subset and assign_reading_order of
--   src/layout/order/reading_order.cpp. The fuel of the recursive cut is the source's own limit of 64
--   levels, at which it gives its indices back. Counting, Segments, Profile, Histogram, HistogramLaws,
--   CutLaws, CutComplete and CutPerm follow an index through the cut by counting; AssignLaws and Priority
--   are about the whole order.
-- BackendRouting: include/turbo_ocr/backend_routing/routing_config.h and
--   src/backend_routing/routing_config.cpp, with env_or of include/turbo_ocr/common/env_utils.h. Table is the
--   map of names, Spec the records, Env the table from the environment, Parse one backend, Load a
--   file, Resolve what a request reads. nlohmann::json, getenv and the file system are parameters: a
--   record of reading functions and two functions.
-- TableHtml: src/table/html_reconstruct.cpp. Texts has its strings, Sanitize is sanitize_table_html and
--   Reconstruct is reconstruct_html. The sanitizer's loop has the length of the markup as its fuel, since
--   every round moves forward. SanitizeLaws and CellLaws hold the proofs.
-- Docassembly: RepetitionGuard is src/docassembly/repetition_guard.cpp. Its loops have as fuel the
--   bounds of their counters. Repeats, Suffixes and RepetitionLaws hold the proofs. TableMerge is
--   src/docassembly/table_merge.cpp: Rows reads markup, Match compares two tables and joins them, Pages goes
--   over the document; Blocks, Merging and Resolving hold the proofs. The operations on double are a
--   parameter. TitleLevel is src/docassembly/title_level.cpp: Symbols reads numbers, Heights clusters font
--   sizes, Keywords has the headings without a number, Levels votes and assigns, and LevelLaws holds the
--   proofs. The clustering has the source's own limit of 100 rounds as its fuel.
-- Formula: src/formula/ppformulanet/formula_tokenizer.cpp. ByteLevel reads the byte-level text of a
--   vocabulary, repairs UTF-8 and strips markers; Tokenizer is load and decode, without latex_post_process,
--   which the callers of decode switch off. nlohmann::json and the file system are parameters. Utf8 says
--   what UTF-8 looks like; Utf8Laws, ByteLevelLaws, VocabBounds, VocabLaws and DecodeLaws hold the proofs.
--
-- Not modelled: 32-bit overflow of coordinates in the router, the layout filter and the reading order,
-- which C++ leaves undefined; message texts beyond the parameter they name; log lines and response
-- headers; the cached environment lookups of the layout filter; the models and their engines, GPU kernels,
-- PDF rendering, gRPC and HTTP glue, the rest of serialization, markdown, the reading order of text
-- lines, child blocks, the table and formula recognizers and the clean-up of LaTeX by regular
-- expressions; waiting on futures and the building of pipelines.
pub mod BackendRouting
pub mod Common
pub mod Decode
pub mod Docassembly
pub mod Formula
pub mod LayoutFilter
pub mod Otsl
pub mod Pool
pub mod ReadingOrder
pub mod Recognition
pub mod Router
pub mod Serialization
pub mod TableHtml
pub mod Validation
