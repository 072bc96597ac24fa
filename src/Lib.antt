-- ===== src/Lib.antt =====
-- The TDM server: it accepts devices and the web server on one port, hands their connections to
-- worker threads, exchanges frames with the devices, and logs through a second set of threads.
--
-- The parts and the files that model them:
-- * `ThreadPool` (src/threadpool.c, inc/threadpool.h): `threadpool_add_job`, the loop of
--   `threadpool_function` and `threadpool_destroy` as critical sections over a heap of jobs
--   (`System.Step`), for any number of threads in any order, and the loop that frees what is left
--   (`Freeing`).
-- * `Worker` (src/thread.c): `cq_push`, `cq_pop`, `cqi_new_base` and `cqi_free_base` over items at
--   addresses (`Items`, `Fifo`, `FreeList`); `dispatch_conn_new`, `conn_new_func_worker` and the
--   handlers on the pipes (`Dispatch`: the push and the write of the byte are two steps); `thread_init` as steps of its threads (`Startup`).
-- * `Conn` (src/TDM.c): the table `conns` with `conn_new`, `conn_free` and `conn_close`, and
--   `event_handler` with `do_accept`. The event loop calls `event_handler`; `do_accept` hands a new
--   descriptor to `Worker.Dispatch.push`, whose thread calls `conn_new`; `socket_read_cb` hands the
--   text that `Receive` leaves to a log thread.
-- * `Frames` (src/TDM.c): `TT_Result_Pack`, `Cmd_Test`, `PickUp_Web_Data` and `Client_Web_Manage`.
-- * `WebRequest` (src/TDM.c): `getValue`, and `Client_Web_Manage` from the text of a request to the
--   socket of a device's session.
-- * `Receive` (src/TDM.c): `Coding_With_Recv_Data` on the bytes a device has sent, with the functions
--   that take its number and answer it at once (`Answers`), and those that answer it from its
--   session (`Sessions`).
-- * `Handlers` (src/TDM.c): `Coding_With_LogOut` over any sequence of log-outs (`LogOut`),
--   `Coding_With_ACCESS_AUTH` from the answer of the pool to the frame (`Auth`), `Coding_With_CFMD`
--   (`Confirm`), the heart beats and other reports of a device (`Device`), `Destory_Node`, and the
--   answer of `Coding_With_VPN_RQST`.
-- * `Spm` (src/TDM.c): `PickUp_Data_Spm` and `Data_Coding_Spm`, the exchange with the server of a SIM
--   card over `Sock`; `Coding_With_CMDTT` and `Coding_With_SIMFILE_REQUEST`, and
--   `Coding_With_CMD_Data_Pool`, which comes to them by `Coding_With_Date` (`Requests`): what a device
--   is sent (`Replies`, `Answered`) and its connection over all its requests (`Sockets`, `Strays`,
--   `Runs`). What `Coding_With_ACCESS_AUTH` stores in the session is an argument there, and a socket
--   that `connect` fails on, which stays open, is not followed (`Logs` follows it). The call of `Coding_With_CMD_Data_Pool` in `socket_read_cb` is switched off by the
--   preprocessor.
-- * `Reports` (src/common.c): the texts for the log server and the pool of SIM cards, each with the
--   array it is printed to (`Rooms`), with `Local_Log_Pack` and `getNetworkType` (`Flow`); `Logs` (the
--   same file): `Send_Logs_Data` and `Send_Sim_Data`, which send them (`Sockets`).
-- * `Log` (src/errlog.c): `SetMsgLevel`, `RegisterLogMsg` and `LogMsg` (`Filter`).
-- * `Session` (src/common.c): `Data_Fd.head`, the list of the devices' sessions, with `Is_Valid_SN`,
--   `get_data_list_by_SN`, `Get_Node_By_SN` (`Table`), `Set_Device_SN_VPN` and
--   `Get_VPN_From_SN_List` (`Vpn`). The circular list of inc/list.h is a list of the nodes in order.
-- * `Deal` (src/common.c): `Get_Deal_From_SimPool`, `Deal_Proc` and the frame of `Coding_With_Deal`
--   (`Minutes`), `Get_Data_From_Deal` with its readers (`Answer`) and `Get_Deal_From_Remote`
--   (`Remote`). They use `Values` for the text of the answer and `Refusal` for its errors.
-- * `Refusal` (src/common.c, src/TDM.c): `SIM_Allocate_Err` and the failure branch of
--   `AccessAuth_Result_Pack`; `Access` the branch of success, with `Set_Dada_IP`.
-- * `Values` (src/sock_base.c): `Get_Key_Value`, `Find_Str_By_Key` (`Readers`, `Bounds`) and
--   `Data_Coing` (`Reply`), over `strstr` and `strtok_r` of the C library (`Search`).
-- * `Sock` (src/sock_base.c): `PutMsgToProcess`, `PutMsgToSock`, `GetMsgFromSock`,
--   `GetMsgFromProcess`, and the functions that make a socket (`Opening`).
-- * `Hex` (src/pravitelib.c): `str2Hex` and `Hex2String`; `Trim` (the same file): `AllTrim`;
--   `Config` (the same file): `ReadString` (`Search`, `Lines`, `Found`).
-- * `TimeComm` (src/timecomm.c): `AddMonths`, `DiffMonths` and `IsDateExt` (`Months`),
--   `IsDateBetween`, `IsDateBetweenExt`, `GetTimeIntersection` and `GetTimeUnion` (`Intervals`),
--   `SolarDay2LunarDay` (`Lunar`), `IsDate` and `IsValidDateExt` (`Checks`), `GetTimet`,
--   `GetTimetValid`, `GetTimetStr`, `AddDays`, `AddMonth` and `GetMonthDays` (`Stamps`).
-- `Base` has the shared names, tests, lists and integers; `Chain` the linked nodes that `ThreadPool`
-- and `Worker` share; `Text` what `atoi` and `sprintf` do; `Examples` runs on concrete inputs.
--
-- A function of the program has the same name here in lower case. Memory is a function from
-- addresses. What the system, libevent or the C library's `mktime` return is an argument: the list
-- of the results of each round for a loop of system calls, `timet` and `timet_str` for the clock.
-- A loop over such a list that has used it up is still running. `digits` has fuel 10, the most
-- digits that an `int` has, or 20 for 64 bits; the loops of `Data_Coing` and `Set_Dada_IP` have the
-- length of their text as fuel, of which each round takes a character at least; `reduce` has its
-- argument as fuel, of which each round takes off 256; `free_jobs` has more fuel than there are jobs.
--
-- A write past the end of an array of fixed size is an outcome of its own (`overrun`, `none`) where a
-- text read from outside is copied, but for `APN`, `speedStr`, `Selnet`, `Vusim_Active_Num` and
-- `ServerInfo` in `Deal.Answer`.
--
-- Not modelled: inc/list.h, which is a copy of the list of the Linux kernel; the making and freeing of
-- all of src/common.c's connections and sessions when the program starts and ends; the functions of
-- src/errlog.c that print an error and end the program; the set-up of the program in src/TDM.c; the
-- functions of src/timecomm.c that print the time of the clock in other formats; the event bases; and
-- libevent, which is a copy of another library.
pub mod Base
pub mod Chain
pub mod Access
pub mod Config
pub mod Conn
pub mod Deal
pub mod Examples
pub mod Frames
pub mod Handlers
pub mod Hex
pub mod Log
pub mod Logs
pub mod Receive
pub mod Refusal
pub mod Reports
pub mod Session
pub mod Sock
pub mod Spm
pub mod Text
pub mod ThreadPool
pub mod TimeComm
pub mod Trim
pub mod Values
pub mod WebRequest
pub mod Worker
