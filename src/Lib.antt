-- ===== src/Lib.antt =====
-- Telink Manager: the panel of the Home Assistant integration that reads, writes and snapshots
-- Telink (PVVX firmware) thermometers over Bluetooth proxies. All of it is one custom element,
-- custom_components/telink_manager/www/telink-manager-panel.js, which talks to the backend by
-- websocket requests. What is modelled here is what the panel decides and keeps, and of the
-- backend beside it the configuration block with its writes and the restore, the encryption, the
-- advertisements, the snapshots' store and the bulk jobs; the markup is not.
--
-- The parts, and how they meet:
--
-- * Session is the element's state (`connectedCallback`) with the operations on it. A handler
--   that awaits is cut at each `await`: `scan`, `read_selected`, `run_cmd`, `start_write` and
--   `close_modal` run up to it and leave a task waiting, and `resume` (Session/Tasks) is what
--   runs when the answer is there: `_scan`, `_readSelected`, `_runCmd`, `_save`, `_closeModal`.
--   Session/World has the actions of the user and of the page and the answers, in any order, as a
--   step relation on the panel and its waiting tasks; the reads that Compare and a restore ask
--   for change nothing of it. Session/Stale is about answers that come too late, Session/Busy
--   about the busy guard, Session/Inflight about `_inflightMacs`, Session/Scan about the
--   selection, and Session/Detach about an element that is taken out of the page and put back.
-- * Editor is the thermometer's form (`_collectChanges`, `_save`), with how it opens
--   (Editor/Opening), the period beside its multiplier (Editor/Period, both of `_modalEdit`) and
--   what a write of the collected changes comes to (Editor/Apply, Editor/Write); Repeater is the
--   repeater's (`normMac`, `checkCustom`, `adoptKeyOf` and the save, of `_modalEditBlethr`), and
--   Repeater/Config the bytes that the save ends in (`build_cfg` and `parse_cfg` of
--   custom_components/telink_manager/blethr.py); Repeater/Opening is how the form opens, and its
--   button for the firmware's defaults.
-- * Blob is the 11 bytes that the changes of Editor are written to: `parse`, `build` and
--   `with_adv_crypto` of custom_components/telink_manager/pvvx_struct.py. Blob/Bits goes through
--   all bytes once for each kind of update, Blob/Bytes is about each of the bytes, Blob/Build is
--   about what is read after a write, Blob/Refused about the ranges, Blob/Crypto about the flag
--   of the encryption, and Blob/Panel puts the form's changes and the bytes together.
-- * Writing is `async_write` of gatt.py with `_read_raw`, over a Bluetooth link that is a
--   parameter: Writing/Reading is about what is read, Writing/Building about what is made of it,
--   Writing/Honest about what a reply says of the device, whatever the link loses, and
--   Writing/Reliable about a link that loses nothing. The reads of `_read_raw` are six at most
--   and the attempts a number that the caller gives.
-- * Restoring is `async_restore` of gatt.py for the snapshot of a thermometer, with `_cmd`,
--   `_read_all_fields` and the two attempts of `_with_client`, over the same link:
--   Restoring/Parts has what is sent for a part and how the answer is judged, Restoring/Keeping
--   and Restoring/Blocks are about what each request does to the block, Restoring/Flag about the
--   configuration and the flag of the encryption behind it, Restoring/Through about a link that
--   loses nothing.
-- * Encryption is `async_set_encryption` of gatt.py, from the block that is read to the reply and
--   the change of Home Assistant's entry; the writes that it sends are listed, and
--   Encryption/Confirmed compares the reply with them. Store is the list of a device's snapshots
--   in custom_components/telink_manager/backups.py (`_state_sig`, `async_save`, `async_delete`):
--   Store/Newest is about a save, Store/Signature about when two blocks count as the same.
-- * Advert is what an advertisement carries (`bthome_objects` of
--   custom_components/telink_manager/adv.py, whose loop runs on fuel: as many rounds as there are
--   bytes, which is enough since each takes one at least; Advert/Walk is about what it finds),
--   and Advert/Stale how long a packet counter stands still (`stale_seconds`), which Freshness
--   shows.
-- * Commands is the window of the device commands (`_modalCommands`): a press sends a message,
--   and the answer changes what the panel holds (Commands/Answer). Commands/Lcd runs the presses
--   beside the display, a parameter, whose duration `async_lcd` of gatt.py cuts to 16 bits;
--   Commands/Random is `randHex`.
-- * Views is the notices on a repeater (`_viewRowsBlethr`), with the judgement of its interval by
--   `_source_interval_check` of gatt.py, and `_hwString` and `_fwString`; Names is the friendly
--   names (`_saveName`, the inputs of `_renderDevTable`, `_modalTitle`).
-- * Rows is the page of a device that was read, as HTML: Rows/Thermometer (`_viewRows`) and
--   Rows/Repeating (the rows of `_viewRowsBlethr`); Rows/Places takes a text apart as a browser
--   does, and Rows/Markup is what is seen of a page.
-- * Screen is the windows of the matrices, with the answers that are drawn into them:
--   `_openCompareModal`, `_openSnapshotsModal`, `_toggleSnapDev`, `_renderSnapChanges`,
--   `_snapDelete`, `_compareRescan`. Screen/Own is about what a click in a history acts on,
--   Screen/Late about an answer whose window is gone.
-- * Html is `escHtml` and `_mstatus`, through which the texts of both go to the page.
-- * Table is the device list (`_sortVal`, `_sortBy`, `_renderDevTable`); its cells are Signal
--   (`_rssiInfo`, `_rssiCell`, `_signalOf`, `_covCls`), Battery (`_battInfo`, `_battCell`) and
--   Freshness (`_staleCell`). Session asks Signal whether to warn before a connect.
-- * Bulk is the jobs over many devices as the panel sees them (`_raDefaultSel`, the two dialogs,
--   `_startBulk`, `_bulkPoll`), and Job the job that runs meanwhile
--   (custom_components/telink_manager/bulk.py): its workers, one for each proxy, as a step
--   relation in which they, the answers and the panels' requests come in any order.
-- * Coverage is the matrix of proxies (`_renderCoverage`, `_covSilent`, `_covAge`), with the best
--   active signal that custom_components/telink_manager/gatt.py sends along.
-- * Compare is the matrix of devices or of snapshots (`_openCompareModal`, `_recomputeCompare`,
--   `_renderCompare`, `_exportCompareCsv`, and `_compareRescan` in Compare/Rescan), with the
--   columns of the settings (`_cmpConfigCols`) in Compare/Settings, and Snapshots the list with
--   restore and clone (`_toggleSnapDev`, `_showRestore`, `_snapDelete`).
-- * Clock is the spoken clocks and intervals (`_clockDiff`, `_clockStr`, `_humanInterval`).
-- * Device has the records that several parts share, Samples a device for the tests, and Prelude
--   the names of the libraries, printed numbers (Prelude/Decimal), Boolean tests, list functions,
--   integers, and the program's `Set` and `Map` as lists in the order of insertion. Each part's
--   Tests module applies its theorems.
--
-- Choices. Numbers are natural numbers or integers in a unit that the comments name, so that no
-- rounding of floating-point numbers is modelled; `Math.round` is written out, halves up. A
-- missing value is `none`, and a text that is only tested for being empty is the empty one when
-- missing. Texts whose characters matter are lists of code points, others are strings. Only the
-- walk over an advertisement needs fuel: every other loop runs over a list or a given number of
-- times, and a job's workers are a step relation.
--
-- Parameters. The answers of the backend are arguments of `resume`, of `bulk_poll` and of
-- `adopt_done`; the browser's `localeCompare` and `toLowerCase` are the record `Collation` of
-- Table, whose comparison is a total preorder.
--
-- The answers of the devices are arguments of the steps of Commands and Job and of
-- `set_encryption`. A press of Commands is one whose answer comes before the next; what happens
-- to a late one is in Session.
--
-- The Bluetooth stack and the device behind it are the records `Link` of Writing and `Notices` of
-- Restoring; what a theorem relies on of them is the records `IsLinked`, `IsReliable`, `IsQuiet`
-- and `IsAnswering`. The device's display is a function, of which `IsDisplay` of Commands/Lcd
-- says what a request does to it.
--
-- Not modelled: the HTML of the pages but for the rows, the styles and the help texts;
-- `toLocaleString`; the file download and the YAML export; the getters of the compared columns
-- that are not settings; and of the backend, the commands of one request, the texts of the
-- errors, the older formats of an advertisement, the other records of the repeater, the files and
-- the index of the snapshots, the restore of a repeater, and the websocket commands.
pub mod Prelude
pub mod Html
pub mod Signal
pub mod Device
pub mod Samples
pub mod Rows
pub mod Screen
pub mod Session
pub mod Editor
pub mod Coverage
pub mod Blob
pub mod Bulk
pub mod Repeater
pub mod Advert
pub mod Battery
pub mod Snapshots
pub mod Table
pub mod Freshness
pub mod Clock
pub mod Commands
pub mod Views
pub mod Writing
pub mod Restoring
pub mod Names
pub mod Job
pub mod Store
pub mod Encryption
pub mod Compare
