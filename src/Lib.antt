-- ===== src/Lib.antt =====
-- The logic of the LAWN EVE intel dashboard's frontend, modelled from frontend/src.
--
-- The dashboard polls a backend for sovereignty campaigns, sovereignty and activity, draws them, and
-- lets an alliance coordinate an operation and read pasted scans. The modules, each with the code it
-- models:
--   Campaign   utils/campaignHelpers.js: getCampaignPhase, formatCountdown, and in
--              Campaign.Texts the times of day and the copied text
--   Timer      components/TimerBoard.jsx: parseDuration, its regular expression as a scanner with
--              states idle, in a number, and in the gap before the unit
--   Config     the fields of /api/config that the helpers read; Config.Sets is Set of JavaScript
--   Scope      utils/entosisHelpers.js: constellationNamesForCampaigns,
--              filterConfigToConstellations, systemsForConstellation, campaignSystemIds,
--              eventTypeLabel
--   Entosis    utils/entosisHelpers.js: groupNodesByEvent; the Map is a list of events in insertion
--              order, the sort of JavaScript is the stable sort of Common.Sort
--   Notify     hooks/useNotifications.js: checkAndNotify, a function from the previous snapshot to
--              the next one and the notifications sent; Notify.Store keeps the settings
--   AiSummary  utils/useAiSummary.js and the button of components/common/AiSummary.jsx: a step
--              relation over the requests in flight
--   Dscan      components/DscanParser.jsx: parseDscan with its table, and the categories of
--              utils/dscanCategories.js
--   TimerAuth  components/TimerBoard.jsx and utils/useAuth.js: passwords, sessions and writes of the
--              timer board; TimerAuth.Runs has the step relation,
--              TimerAuth.Logout a logout while a password is being checked
--   MapView    utils/mapHelpers.js: boxes, view box, colours, gateways and neighbours of the map
--   OpPage     pages/EntosisPage.jsx: fetchIntel, the poll behind the operation page, with its
--              endpoints failing in each way and the request of the kill feed; OpPage.Body the
--              board that it shows
--   Upgrades   utils/upgradeHelpers.js: upgrades of a system, counted and ranked per category;
--              Upgrades.Overview components/UpgradesOverview.jsx
--   Intel      components/IntelChannelParser.jsx: Intel.Words, Intel.Links, Intel.Lookup and
--              Intel.Messages parse what is pasted, Intel has the board, Intel.Chars the pilots
--              asked about, Intel.Copy the texts and a paste as a whole
--   MapStyle   components/ConstellationMap.jsx: colours, badges, tooltip and notes; MapStyle.Nodes
--              how a node is drawn, MapStyle.Gestures panning and pinching by touch
--   Dashboard  App.jsx: fetchData with its requests failing or not, the figures of the header;
--              Dashboard.Layout the panels of the page, wide or under the tabs of a phone
--   NodeBoard  pages/EntosisPage.jsx: the buttons of a node; NodeBoard.Writes has the writes
--   Parsers    components/LocalScanner.jsx and FleetCompAnalyzer.jsx: names and scans;
--              Parsers.Texts and Parsers.Fleet have utils/parserCopy.js with the rows of a scan
--   KillFeed   components/KillFeed.jsx: filters and figures of the kill feed
--   JumpBridges  components/JumpBridgeManager.jsx: who may write, and the writes
--   War        utils/warHelpers.js, War.Page the requests of pages/WarPage.jsx, War.Board its
--              tables and texts, War.Amounts the amounts and durations, War.Chart WarBarChart.jsx
--   Usage      pages/AnalyticsPage.jsx: loading and locking the statistics; Usage.Charts its bars
--   Panels     SystemTable, ActiveHostileTracker, RegionalIntel, NeighborIntel, PlanetaryIntel,
--              CampaignAlerts
--   Grinding   utils/admHelpers.js and components/GrindingPlan.jsx: the ranking of systems by need
--   Bell       components/NotificationBell.jsx: the controls over the settings of Notify.Store
--   Share      pages/SharePage.jsx: loading a shared report; Share.Endings its runs, Share.Stale a
--              body that comes too late, Share.Shown what is shown, Share.Button
--              components/common/ShareButton.jsx
--   Results    components/parsers: what a local scan, a fleet and a directional scan show
--   Charts     Sparkline.jsx, AdmTrends.jsx and ActivityHeatmap.jsx
--   Common     what these share
-- Campaign is read by Entosis, Notify and Scope, Config by Scope, MapView and OpPage, and OpPage
-- and Dashboard call checkAndNotify of Notify; OpPage.Body joins Entosis, Scope and Campaign.
-- NodeBoard and JumpBridges read the session of TimerAuth,
-- MapStyle the rows of Intel, Parsers the scan of Dscan, and Panels and
-- Grinding what Dashboard and MapStyle have of a system. Bell writes the settings that Notify reads,
-- Share shows the payloads of Parsers as Results has them, Charts the history of Grinding; the others
-- stand alone.
--
-- Times are milliseconds since the epoch, in Intel since March of the year 0, and the clock is an
-- argument, as each function reads it at once. An ADM is counted in tenths, amounts of ISK and scores
-- are whole numbers. An undefined, null or empty field is `none` where the code
-- treats them alike. Texts that the code takes apart are lists of code points, the others native
-- strings. The loops go over lists, so that they need no fuel; only the decimal digits of a number are
-- printed on fuel, one more than the number itself, which has fewer digits than that.
--
-- Parameters, not definitions: how a request ends (an outcome of a step, or an argument of a handler;
-- a fetch rejects with an AbortError exactly when its signal was aborted), what is in a body that the
-- page only shows, the permission to notify, the order of localeCompare, the
-- rounding of a difference (Grinding) and of toFixed (War.Amounts), toLocaleString, the numbers of the
-- scale of the map (MapStyle.Gestures), and the table of a scan,
-- which is any table in the theorems.
--
-- Not modelled: the backend, what React draws and when it runs an effect, letters beyond ASCII in
-- changes of case, and the keys that every JavaScript object inherits; averages and
-- rates; where the texts and lines of the map are drawn; and styles. A share, a coordinate of a curve
-- and the height of a bar are fractions: a numerator, over a denominator that is given.
pub mod AiSummary
pub mod Bell
pub mod Campaign
pub mod Charts
pub mod Common
pub mod Config
pub mod Dashboard
pub mod Dscan
pub mod Entosis
pub mod Grinding
pub mod Intel
pub mod JumpBridges
pub mod KillFeed
pub mod MapStyle
pub mod MapView
pub mod NodeBoard
pub mod Notify
pub mod OpPage
pub mod Panels
pub mod Parsers
pub mod Results
pub mod Scope
pub mod Share
pub mod Timer
pub mod TimerAuth
pub mod Upgrades
pub mod Usage
pub mod War
