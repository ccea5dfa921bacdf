-- ===== src/Lib.antt =====
-- SmartWindow: a controller on a Raspberry Pi opens and closes a window by the readings of two sensor
-- nodes, one inside, which also drives the window, and one outside.
--
-- The parts and how they interact. A thread of the controller asks all nodes for data in turn
-- (RaspberryPi/Window_Controller/main_controller.cpp, `main`). A node (microController/phytec/main.c)
-- answers with five texts, one for each sensor. The receiving thread of the controller (`receiveLoop`)
-- splits each text and writes its value to the database. The decision thread (`decisionLoop`) reads the
-- latest values, updates its alarms, writes their states, advances a state machine of seventeen flags,
-- and sends commands to open or close the window. The node inside drives the servo step by step and
-- reports the position that was reached, which the receiving thread writes to the database in turn.
-- The web server (Webserver/Webserver.py) shows the latest values, and writes the mode, the requests to
-- open and to close, and the limits, which the decision thread reads.
--
-- Files:
--   Common            numbers, byte strings, Boolean tests; programs over a world (Common/Outcome)
--   Controller        `decisionLoop`: Readings and Reads (the reads), Alarms (thresholds, alarms,
--                     states that are written), Machine (transitions), Round (one round and the loop).
--                     Machine/Phase is an abstract machine with one phase in place of the flags;
--                     Round/History is about the alarms since the start, Round/Storing about the rows
--                     of a round in the database.
--   Messages          `splitString`, `concat`, `tableName`, `putCommand`
--   Receiver          `receiveLoop`, from a datagram to the rows that are written; Receiver/Thread is the
--                     thread with its socket
--   Database          RaspberryPi/Window_Controller/write_read.cpp: Queries (texts of queries, `atoi`)
--                     and Access (reading and writing on a handle). Server states what the code relies
--                     on of the client library and the server, as laws of its calls.
--   Node              microController/phytec/main.c: Servo (`openWindow`, `closeWindow`), Main (`main`),
--                     Link (`communication_thread`, `sendString`; its loop in Link/Session, its start
--                     in Link/Startup), Sensors
--                     (`initAll` and the sensors)
--   Network           `main`, `sw_send`, `get_link_local_addr`, `get_Lowpan0Ipv6Address` and `dummyLoop` of
--                     the controller, and microController/phytec/sendReceive.c of the node
--   Webserver         Webserver/Webserver.py: queries and words, Exec (code that can raise), Pages (`Main`,
--                     `LimitsText`), Requests (all routes). Modes is about the tables of the buttons,
--                     Values about the values that the pages show and the form sets.
--   System            the controller and both nodes together: every text that was sent can arrive
--                     any number of times, in any order, or never. System/Agreement delivers each
--                     text of a node once and in order. System/Button, System/Quarrel and
--                     System/Leftover join the web server to the controller; System/Sharing says how
--                     the tables do
--   Tests             the code on concrete inputs
--
-- How the model corresponds to the code:
--   Numbers of type `int` are integers; a computation that leaves the 32 bits of an `int` is undefined
--   behaviour, which is `none` everywhere, as is a null pointer that is read and a buffer that is
--   overrun. The averages are doubles in the code; they hold integers below 2 ^ 53, so the comparisons
--   are those of integers. The position of the servo is a 32-bit pattern, since it is compared as an
--   unsigned number. Pointers have four bytes, and `alloc` tells which allocations succeed. A C string
--   is the list of its bytes without the terminator.
--   A text is split on fuel, one more than its length: each word takes a byte away. The main thread of
--   the node runs on fuel: seventy rounds open the window from any position at rest and thirty-five
--   close it.
--   The functions of the database are parameters of the decision thread. The MySQL client library, the
--   sockets, the radio and the drivers of the sensors are records of operations on any type of worlds.
--   The printing of numbers by `sprintf` is a record of functions.
--   The cursor and the connection of the web server are a record of operations too, which can raise: a
--   request that raises keeps what its cursor has executed, as it is one connection for all requests.
--
--   The schema lets a table have one row per second. The web server's rows can be refused (Webserver), and
--   so can those of the alarm states (Controller/Round/Storing). In System a row for Win_Open that is
--   refused is a text of the node that is lost; System/Agreement takes every row as accepted.
--
-- Not modelled: requests to the web server that overlap; the starting of threads, which is a call
-- of the operating system; the queue of messages of a node's threads, which meet at each message;
-- messages that are printed; the release of memory; the templates of the web server, of which only
-- the arguments are, and the database schema, which stands behind the laws of the database; the
-- vendored MySQL headers and libraries.
pub mod Common
pub mod Controller
pub mod Database
pub mod Messages
pub mod Network
pub mod Node
pub mod Receiver
pub mod System
pub mod Tests
pub mod Webserver
