-- ===== src/Lib.antt =====
-- A verification library for esp_components: the logic of its ESP-IDF components, translated from the
-- C sources function by function.
--
-- The components are independent libraries that a device's firmware links. config_store keeps a
-- configuration in files; mqtt_manager holds the session with the broker and routes messages by topic;
-- http_server checks the login of a request before it calls the route's handler; wifi_manager keeps the
-- station connected and tells the others of the link; cli keeps the groups of commands that the other
-- components register; the drivers talk to parts on an I2C bus, and int_dispatch calls their handlers
-- when a part asserts the interrupt line that they share.
--
-- Which file is about which code (paths from the repository's root):
--   Base        the shared names: Base/Tests the Boolean tests and byte strings, Base/Lists lists that
--               are measured by native numbers, Base/Bits the laws of &, | and ^,
--               Base/Int signed integers.
--   Config      config_store/src/config_store.c. Config/Files is the C library and the file system as an
--               interface: open, write, rename and unlink on an abstract state, with the laws of POSIX.
--               Config/Store has config_store_init (init), config_store_read (read, read_file),
--               config_store_write (write, replace, write_temp, rotate, install), and
--               config_store_restore_backup (restore_backup). Each call appends the state it leaves to a
--               trace, so that a loss of power after any call is a prefix. Config/Ram is a file system
--               that satisfies the interface.
--   Mqtt        mqtt_manager/src/mqtt_topic.c. Mqtt/Topic has mqtt_topic_matches (topic_matches, with its
--               loop walk); Mqtt/Topic/Levels is the meaning of filters by levels. Mqtt/Building has
--               mqtt_topic_build (topic_build, substitute, join, append) and mqtt_topic_needs_device.
--               Mqtt/Client is mqtt_manager/src/mqtt_manager.c: start, stop, subscribe, publish, dispatch
--               and the two event handlers, as the events of one machine (handle); the filters that the
--               client was told to subscribe to in the present session, each with its answer, are part of the state, and the answers of the
--               client library are an argument (Answers).
--   Http        http_server/src/http_auth.c. Http/Auth has http_auth_base64 (base64),
--               http_auth_expected_header (expected_header) and http_auth_header_matches; the table,
--               the encoder and the decoder of RFC 4648 in Http/Auth/Base64 are the specification.
--   Cli         cli/src/cli_dispatch.c. Cli/Registry has cli_find_group (find_group) and
--               cli_register_group (register_group, with its insertion loop place); Cli/Compare is
--               strcasecmp. Cli/Dispatch has cli_execute (execute, with find_command and run_help): what is
--               run is a value, and the functions of the commands are numbers. Cli/Args is cli/src/cli_args.c:
--               parse_in_base, cli_parse_int_arg (parse_int_arg), cli_parse_num_arg (parse_num_arg) and, in
--               Cli/Args/Pins, cli_parse_pin_list (parse_pin_list, with append_pin and its loop range). An
--               operation that C leaves undefined is an outcome of its own. Cli/Complete has cli_complete.
--   Wifi        wifi_manager/src/wifi_manager.c. Wifi/State is wifi_manager_ctx_t, with the timers and what the
--               driver has in flight. Wifi/Reconnect has schedule_reconnect, start_reconnect_scan,
--               connect_from_scan_results (with the choice of a network, choose) and
--               connect_to_best_network. Wifi/Events has wifi_event_handler and the timers' callbacks as
--               the events of one machine (handle), among them the two halves of wifi_manager_scan, so
--               that other events may come between. Wifi/Control has init, start_station_mode,
--               start_ap_mode, stop, deinit, add_known_network and remove_known_network. How the driver
--               answers a call is an argument (Answers), and so are the sizes of the arrays that other
--               code declares (Sizes).
--   Interrupts  int_dispatch/src/int_dispatch.c: int_dispatch_start, int_dispatch_stop, int_dispatch_register,
--               gpio_isr and the steps of dispatch_task as the events of one machine (handle), with the
--               edges of the line among them.
--   Drivers     aw9523b/src/aw9523b.c (Drivers/Aw9523b, its calls on a handle in Drivers/Aw9523b/Ports) and
--               pi4ioe5v6408/src/pi4ioe5v6408.c (Drivers/Pi4ioe5v6408, likewise): configure, create,
--               set_device, write_port, read_port, set_pin, get_pin and what acknowledges an interrupt.
--               Drivers/Bus has write8 and read8 on the I2C bus, a parameter that answers each request
--               from all those before it, as a failing bus may; the log of requests and answers tells
--               what a register was last written with. Drivers/Pins is the arithmetic of one pin.
--               rx8130ce/src/rx8130ce_calc.c (Drivers/Rx8130ce): rx8130ce_bin2bcd, rx8130ce_bcd2bin,
--               rx8130ce_decode_time and rx8130ce_encode_time.
--               nau7802/src/nau7802.c and nau7802_scale.c (Drivers/Nau7802): the transport, wait_for_bit,
--               wait_for_drdy and read_raw; in Power the sequences of calibration and bring-up, in
--               Lifecycle what nau7802_bring_up and apply_analog_change do to the handle, in Setters the
--               settings, in Drdy the claiming of the DRDY pin, in Status
--               nau7802_get_status, in Averaging nau7802_read_average, and in Weighing nau7802_tare,
--               nau7802_calibrate, nau7802_set_scale and nau7802_weigh. The bus, the DRDY pin and its
--               semaphore are a parameter that answers each request from all those before it.
--               Drivers/Floats is the double of C as an interface of a type and its operations, of which
--               no law is assumed; what is proved holds whatever they do.
--
-- How the code is represented: a C string is the list of its bytes without the terminator; a pointer that
-- may be NULL is an Option; a buffer is its size and what is written to it; an error code is a
-- constructor of the component's Status. Loops are structural recursions, on the bytes that are left or
-- on an index that falls. One loop has fuel, that of wait_for_bit: it polls each 10 ms until a timeout, in
-- 32 bits that may wrap around, and has fuel for timeout / 10 + 2 rounds; Drivers/Nau7802/Waiting is about
-- that it is enough. Native natural numbers stand for size_t and for the
-- bytes; sizes are those of strings in memory, so that the sums of them do not overflow a size_t.
--
-- Not covered: what only calls ESP-IDF (the HTTP server's sockets, OTA
-- partitions, mDNS, SNTP, the console), logging, the laws of floating point arithmetic and
-- cli_parse_double_arg; the printing of help; the register map of nau7802; and the other drivers and diag.
-- The outcome of an allocation is an argument where the code tests it.
mod Base
pub mod Cli
pub mod Config
pub mod Drivers
pub mod Http
pub mod Interrupts
pub mod Mqtt
pub mod Wifi
