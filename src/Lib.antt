-- ===== src/Lib.antt =====
-- Verification of the C programs of the RedPitaya ecosystem of the LAGO project: the data
-- acquisition of the water Cherenkov detectors (projects/lago_v1_3/src), the GPS readers
-- (apps/rp_tinygps, apps/rp_venusGPS), the pressure sensor (apps/rp_bmp180), and the recorders, the
-- sample server and the test programs of the other projects.
--
-- The acquisition program `lago` maps the devices of the programmable logic (zynq_io.c), parses its
-- command line, and then reads words that the logic writes to a ring in memory. It waits for the
-- interrupt that tells the writer's word (wait_for_interrupt), and decodes the words up to there
-- (read_buffer). A GPS on the serial line gives the position (uart_rp.c, nmea_rp.c, gps_rp.c). The
-- program rp_gps feeds the characters of such a line to a streaming decoder (tinygps.c) instead.
--
-- The modules, and the code that they model:
-- - Base: numbers, lists, signed integers (Int), the bits of words (Bits, Fields), decimal
--   numerals (Numerals), the C library's string
--   functions (Libc) and its calendar (Calendar), and ASCII text (Text).
-- - TinyGps: apps/rp_tinygps. State holds the globals of tinygps.c as a record, Number the parsers
--   of digits, Encode `gps_encode` and `gps_term_complete`, Query the accessors,
--   Accessors those in float, App the loop of rp_gps.c. Terms says what a sentence means as a list
--   of terms, apart from the decoder. Valid, Accept, Body, Sentence, Nul, Meaning, Gather, Refine,
--   Sentences, Prefix, Digits and Date hold the proofs: a sentence through the
--   array `_term`, character by character, does what its terms mean.
-- - Zynq: projects/lago_v1_3/src/zynq_io.c. Registers names the offsets and models a device as the
--   word at each offset, Device the access to registers by a device number, System the
--   initialisation and the interrupt controller, Open the mapping of the device files. Reset and
--   Interrupt hold the proofs.
-- - Lago: projects/lago_v1_3/src/lago.c. Params and Command model `parse_param`, Acquisition and
--   Words the state and the decoding of one word, Buffer `read_buffer`, Interrupts the wait and the
--   loop, Main the actions of `main`. Action, Setting, Reader, Fields, Lost, Clock and Run hold
--   proofs.
-- - Nmea: projects/lago_v1_3/src/nmea_rp.c, gps_rp.c and uart_rp.c. Sentence models the checksum and
--   the message type, Fields the two field parsers and the conversion to degrees, Location the loop
--   that waits for a position, Uart the reading of a line, Port the other functions of uart_rp.c.
--   Checksum holds proofs.
-- - Bmp180: projects/lago_v1_3/src/bmp180.c. Sensor models the raw readings and the calibration, with
--   the answers of the I2C bus as a parameter, Compensation the computation of temperature and
--   pressure, whose results are integers (tenths of a degree, pascal). Lifecycle models bmp180_init,
--   its clean-up and bmp180_close of apps/rp_bmp180/bmp180.c over the memory and the files they hold,
--   App main of apps/rp_bmp180/test.c, Copy the readings of that copy, Driver the life of the sensor in
--   projects/lago_v1_3/src and in main of its lago.c. Bytes, Range and Resources hold proofs.
-- - Venus: nmea_rp.c and gps_rp.c of apps/rp_venusGPS. Commas models rp_GetComma and the time and
--   the date of rp_NmeaParseGprmc, Location the two sentences and gps_location, Port its copy of
--   the serial line and of the checksum; Dates holds proofs.
--   Every line comes with what the uninitialised locals of the loop hold when it is entered.
-- - Gpio: projects/gpio_led_test/gpio_led_test.c. Text models itoa, Lights the patterns of the lights,
--   Exerciser the loop over the buttons, Strings strcat, Devices the initialisation of the devices;
--   Numerals holds proofs.
-- - Recorder: adc_recorder.c of projects/adc_recorder, adc_recorder_uio and adc_recorder_old,
--   adc-recorder.c, projects/counter_test/uio_src/counter_test.c and projects/adc_test/server/gen.c.
--   Memory models the loops that print the samples, Setup the registers written around a recording,
--   System the init_system in each program's own copy of zynq_io.c, Generator the arguments of gen.
--   Programs models the three adc-recorder.c as a whole, Open and Start the programs over the copies
--   of zynq_io.c from their _init functions on, Access the other functions of these copies. Lines,
--   Reset, Agree, Stored, Bounds, Copies and Unchecked hold proofs.
-- - Server: projects/adc_test. Stream models the loop of server/adc-test-server.c for one client on
--   the sequence of the writer's positions, Control the loop over the clients, Start what comes before
--   it, Client the receiving
--   loop of client/adc-test-client_lnx.c. Halves, Live, Modes and Words hold proofs.
-- - Xadc: projects/xadc_test. The access to an address by its width in xadc_test.c; Report models main
--   of xadc_uio.c.
-- - Ramp: projects/ramp_test/ramp_test.c.
-- - Cma: patches/cma.c, the kernel module that hands out the writer's buffer. Ledger, Mappings and
--   Client hold proofs, the last with cma_init of zynq_io.c over the module.
-- The Tests modules hold runs at concrete inputs.
--
-- Conventions. A global variable is a field of a record that the functions take and return. A
-- machine word of w bits is a natural number below 2 ^ w, with its wrap-around written out; a signed
-- variable is an integer where the code relies on its sign. The target is a 32-bit ARM: `long` and
-- `time_t` have 32 bits and `char` is unsigned. A C string is the list of its bytes without the NUL.
-- What the system answers (the bytes of a read, the result of `poll`, the clock, the words of the
-- ring) is an argument. Loops are recursions over the list of what arrives, over the words to read,
-- or over the rounds that the code itself counts. Fuel is needed twice, in Gpio: in itoa, where it is
-- the 33 bytes of its array, since a number of 32 bits has at most 32 digits; and in strcat, where
-- more than the length of both strings is enough.
--
-- Not modelled: the printing, but for the lines of the data file and the printed samples as values;
-- arithmetic on floats, which is a parameter in TinyGps, Nmea, Venus and Recorder and left
-- out elsewhere, as are the distance and the course of tinygps.c, which no program asks for; the
-- set-up of the client's socket; `thread_isr` of lago.c, which `main` never starts; the drivers of the
-- Linux kernel in patches but cma.c; and the VHDL cores.
pub mod Base
pub mod TinyGps
pub mod Zynq
pub mod Lago
pub mod Nmea
pub mod Venus
pub mod Bmp180
pub mod Cma
pub mod Gpio
pub mod Ramp
pub mod Recorder
pub mod Server
pub mod Xadc
