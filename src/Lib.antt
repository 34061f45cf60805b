-- ===== src/Lib.antt =====
-- softupdate: the update service of a V400 or UX400 unit.
--
-- A client sends frames over TCP; the unit checks and answers them and carries them out on the
-- panel's EEPROM, on the boards in its slots and on the memory of the process. The library follows
-- the parts of the program:
--
--   Prelude     shared names, lists over the native numbers, byte buffers, signed integers
--   Bits, Text  facts on bit_or; decimal texts as sprintf and atoi treat them
--   Md5         clientbase/md5checksum.cpp and .h. Context is MD5_CTX, update is MD5Update, final is
--               MD5Final. Streaming and Digest compare them with a definition of the digest on the
--               whole message
--   Queue       clientbase/eventqueue.h and .cpp: the linked list on a heap; enqueue, dequeue
--   Eeprom      v400eeprom/v400eeprom.c over the SUSI calls (Eeprom/Smbus)
--   Board       common/VControlServer.cpp: Panel (ReadOptionBuffer, WriteOptionBuffer, the MAC and
--               the serial number), Usb (paths, serial numbers, types, network interfaces), Net
--               (opthex and optfill), Ftdi (40G boards), Password (CheckPwd), Bit (BitOptionDeal),
--               Access (ReadModuleBuf, WriteModuleBuf, WriteOptionBit), Memory (ReadMemory,
--               WriteMemory)
--   Client      clientbase/clientbase.cpp: Frame (FrameHeader, CreateFrame), Link (the members of
--               ClientBase and the methods on them), Receiver (ReceiveThread), Session (Connect,
--               SetSocket, Disconnect, Receive, the wait of Send), Executer
--               (clientbase/eventexecuter.cpp and ClientBase::Execute)
--   Service     common/CommonServer.cpp: State (the members of CCommonServer and the system calls),
--               Dispatch (OnReceived), Catalog (GETCATALOG), Files (CHECKFILEEXISTS, GETFILELENGTH,
--               GETFILECREATEDATE, GETFILEINFO, GETVERSION), AllFiles (GETALLFILEINFO), Download
--               (GETFILE and its thread), Upload (SENDFILENAME, SENDFILE), Directory (CreateDir),
--               Command (CMD and its thread), Modules (serial numbers, MACs, board types, module
--               buffers, options), Loading (MEMORYSCRIPT and its START), Script (ScriptToLine,
--               GetMemoryScriptCMD, MemoryScript_DoWork); Listen
--               (common/VControlServer.cpp: the broadcast thread, StartCommonServer)
--
-- ReceiveThread passes a frame on to Execute, which puts it into the queue; the executer's thread
-- takes it out and calls OnReceived, whose handlers use the panel, the boards and the file system.
--
-- Code that is not in the repository is a parameter: the SUSI library (Susi), libftdi (Ftdi) and the
-- operating system (Host, System) are records of calls on the state of the machine. Where a theorem
-- needs what such a call does, it takes a record of laws (Reaches, Keeps, Sends, Stores, Listed),
-- which the tests fill with a device of their own.
--
-- A read or a write outside a buffer is the result none, a pointer that leads nowhere a fault, and
-- a recv past the receiving buffer the phase overrun, so that theorems can say when these occur.
-- An int is the type of signed integers, an unsigned int a number with its wrap-around written out.
-- A method that holds a mutex for all it does is one step. ReceiveThread is a step machine: an
-- event says what select and recv answer, and ready k gives at most k + 1 bytes. Loops run over the
-- bytes or on fuel; the rounds of MD5 and of the checksum have fixed numbers, and the destructor of
-- the queue gets as much fuel as the queue has nodes.
--
-- A request to the service is done with a new server, waits for a thread that has not ended, or is
-- undefined where the code reads or writes outside a buffer or through a pointer that leads nowhere.
-- A flag that another thread sets is a function of the round in which it is read; a file that is
-- sent keeps its bytes meanwhile; a wait is given by whether it is woken and by what the other
-- threads have done to the link. A frame's data that the code uses as a C string ends with the data.
-- The scan of a script has a round for each byte and one more, which is shown to be enough.
-- The one overrun that the model follows is that of the script's buffer, since every whole script
-- writes a byte behind it: the server goes on, and memory_script_written says how far it wrote.
-- malloc is a flag of the script's run, there only, since an E command may ask for any length.
--
-- Not modelled: ReadMemory_DoWork (it writes through a pointer that is never set), the destructors
-- of ClientBase and EventExecuter, FindAllSN, the accept loop and the thread of one connection,
-- StopCommonServer, the wrap-around of a sum of two int, the process's start, and debug output.
pub mod Bits
pub mod Board
pub mod Client
pub mod Eeprom
pub mod Md5
pub mod Prelude
pub mod Queue
pub mod Service
pub mod Text
