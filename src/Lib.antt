-- ===== src/Lib.antt =====
-- The panel of Argus (web/src): the TypeScript of its browser application, which shows what the hub observes of
-- containers. The hub and the agent (Go: cmd, internal), the transports and the copied components
-- (web/src/components/ui) are not modelled.
--
-- The parts and their files:
--   Prelude        tests on numbers, lists, texts (Text, Split), decimals, a stable sort, association lists (Assoc)
--   Page           web/src/lib/page.ts and components/list-pager.tsx: pages of lists, and the hub's page bodies
--                  (Page.Hub)
--   Query          web/src/hooks/use-query-state.ts: the state that the URL holds; Query.Redirect is
--                  components/layout/redirect.tsx
--   Api            web/src/lib/api.ts: the types (Api.Types), the fetch (Api.Fetch), the calls (Api.Calls)
--   Fleet          web/src/lib/container-state.ts and severity.ts: which containers are unstable, and why
--   Observability  web/src/lib/observability.ts: the choices, the match of a service, the saved views, with the map
--                  that they refine (SavedViews.Refines)
--   Topology       web/src/lib/topology-view.ts: the services of the graph (Build), their status (Status), their order
--                  (Rank), addresses (Address); web/src/pages/topology.tsx: the loading (Load), the page (Panel), its
--                  path and detail (Panel.Detail, Panel.Follow)
--   Stats          web/src/lib/stats.ts: averages, percentiles and maxima
--   Effect         the effects of React that load with a flag `cancelled`, as a step relation; Metrics.Compare.Load,
--                  Metrics.Container.Load and Traces.Detail are its instances
--   TimeRange      web/src/lib/time-range.ts and components/filters/time-range-picker.tsx
--   Format         web/src/lib/format.ts, meter.ts, slo.ts and components/metrics/metric-meter.tsx;
--                  Cache is the cache of the formatters
--   Containers     web/src/pages/containers.tsx: rows, counts, loads, and what the page shows
--   Logs           web/src/pages/logs.tsx: filters, requests, handlers, lines; web/src/views/log-patterns.tsx (Patterns)
--   Traces         web/src/pages/traces.tsx: the list, the detail, the bars of spans
--   Language       web/src/i18n.ts and lib/i18n-catalog.ts (Catalog); Navigation is web/src/lib/navigation.ts with the
--                  sidebar and the switch of the language
--   Metrics        web/src/pages/metrics.tsx; Compare is web/src/views/metric-compare.tsx, Container
--                  views/container-metrics.tsx
--   Series         web/src/lib/series.ts; Charts is web/src/components/metrics (the merges, the tooltip, the sparkline)
--   Overview       web/src/pages/overview.tsx
--   Problems       web/src/pages/problems.tsx and views/problems-now.tsx; History is views/event-history.tsx, Slos
--                  views/slo-list.tsx
--   Groups         web/src/views/groups-panel.tsx and components/filters/group-select.tsx
-- A page reads its filters from the URL (Query), asks the hub (Api), and shows what it derives from the answers.
-- Names are the source's in snake_case. Each file's comment says which code it is about.
--
-- How values are modelled: a string is its list of UTF-16 code units (Prelude.Text), and lower and upper case are
-- those of ASCII; a measured value is a natural number of millionths and a result of a division a fraction, so that
-- the rounding of floating point is not modelled; a count is a natural number; a field that may be missing is an
-- Option; a response is a JSON value (Page.Hub) whose numbers are natural. URLSearchParams is an association list
-- that keeps repeated names, and a Map or a plain object one in the order of insertion; what a plain object inherits
-- is not modelled.
--
-- Requests: a page's handlers take the hub's answer, none where the request fails. Where the source orders the
-- answers (a generation, a flag `cancelled`), the runs are steps in any order; elsewhere an answer counts whenever it
-- comes.
--
-- What is no code of the repository is a parameter: Number(), localeCompare, Intl, Date, the translation function,
-- fetch, the encoding of a query, JSON.parse and JSON.stringify of the saved views, the random id of a view. A record
-- (Platform, Clock, Stored, Words) holds them, and a property names what it relies on (IsPreorder, IsIso, IsJson).
--
-- Fuel: Prelude.Decimal writes the digits of n with n + 1 rounds, and n has fewer digits; Format.Ansi takes at least
-- one unit in each round and starts with as many rounds as units, which suffices (Format.Ansi.Fuel).
--
-- Not modelled: the layout and the styles; the drawing of the charts; the timers that
-- load again, since a load may begin at any time in the models.
pub mod Prelude
pub mod Page
pub mod Query
pub mod Api
pub mod Fleet
pub mod Observability
pub mod Topology
pub mod Stats
pub mod Effect
pub mod TimeRange
pub mod Format
pub mod Containers
pub mod Logs
pub mod Traces
pub mod Language
pub mod Navigation
pub mod Metrics
pub mod Series
pub mod Charts
pub mod Overview
pub mod Problems
pub mod Groups
